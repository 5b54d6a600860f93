-- ===== src/Vfs/Lookups.antt =====
-- Which files the patched `fs` serves from the binary, and what it does for all others.
use node_apphost.Base.{
  Str, Bool, true, false, List, [], ◌∷◌, ◌++◌, Option, none, some, ◌==◌, ◌||◌, ap, ◌≡◌, ◌≢◌, ◌⊎◌,
  inl, inr, refl, arith, Bool-cases,
}
use node_apphost.Base.Search.{replace}
use node_apphost.Vfs.{
  FileData, Stats, value, Node, clean, get_vfile, size_of, stat_sync, path_of, stats_result,
  realpath_sync, read_file_sync,
}

-- The first code unit is neither the separator nor a question mark.
abbrev pub IsClean : Node → Str → Type 0
IsClean n [] = Unit
IsClean n (c ∷ s) = (c ≢ n.sep) × (c ≢ b'?')

abbrev AllLeading : Node → Str → Type 0
AllLeading n [] = Unit
AllLeading n (c ∷ s) = ((c ≡ n.sep) ⊎ (c ≡ b'?')) × AllLeading n s

-- `CLEAN` drops separators and question marks from the front, and nothing else: what it drops are
-- such code units, and what is left begins with none.
pub clean_lem :
    (n : Node) (s : Str)
    → (lead : Str) × (s ≡ lead ++ clean n s) × AllLeading n lead × IsClean n (clean n s)
unfolding clean
clean_lem n [] = ([], refl, tt, tt)
clean_lem n (c ∷ s) = elim (Bool-cases (c == n.sep || c == b'?')) [
  | inl e ↦
      let (lead, p, q, r) = clean_lem n s in
      rw e (c ∷ lead, ap (λ x. c ∷ x) p, (ground arith, q), r)
  | inr e ↦ rw e ([], refl, tt, ground arith)
]

-- The names under which the native table is asked for a path, in their order.
abbrev pub spellings : Node → Str → List Str
spellings n path =
    clean n (n.relative n.exec_path path)
    ∷ clean n (n.relative n.cwd path)
    ∷ clean n (replace n.cwd [] path)
    ∷ []

abbrev pub first_data : Node → Bool → List Str → Option FileData
first_data n b [] = none
first_data n b (f ∷ fs) = elim (n.get_file_data f b) [ none ↦ first_data n b fs | some d ↦ some d ]

-- `GetVFile` answers what the native table has for the first spelling that it knows.
pub get_vfile_lem :
    (n : Node) (path : Str) (b : Bool) → get_vfile n path b ≡ first_data n b (spellings n path)
unfolding get_vfile
get_vfile_lem n path b = ground arith

-- The three functions agree on a path that the native table knows in one of its spellings, with or
-- without contents: the number is the table's, the size is undefined, the real path is the path, and the
-- contents are the table's, and the original functions are asked for the executable alone.
pub virtual_file :
    (n : Node) (path : Str) (d d' : FileData) (s : Stats)
    → first_data n false (spellings n path) ≡ some d
    → first_data n true (spellings n path) ≡ some d'
    → n.orig_stat_sync n.exec_path ≡ value s
    → (stat_sync n path ≡ value (record s { ino = d.ino; size = none }))
      × (realpath_sync n path ≡ value (path_of path))
      × (read_file_sync n path ≡ value d'.contents)
unfolding stat_sync realpath_sync read_file_sync size_of
virtual_file n path d d' s h h' e =
    ground (arith, get_vfile_lem n path false, get_vfile_lem n path true)

-- For every other path `statSync` and `readFileSync` are the original functions. But
-- `realpathSync` is the original `statSync`: it answers the stat object of the path, or throws its
-- error, and never answers a path.
pub real_file :
    (n : Node) (path p : Str)
    → first_data n false (spellings n path) ≡ none
    → first_data n true (spellings n path) ≡ none
    → (stat_sync n path ≡ n.orig_stat_sync path)
      × (read_file_sync n path ≡ n.orig_read_file_sync path)
      × (realpath_sync n path ≡ stats_result (n.orig_stat_sync path))
      × (realpath_sync n path ≢ value (path_of p))
unfolding stat_sync realpath_sync read_file_sync
real_file n path p h h' = (
  rw (get_vfile_lem n path false, h),
  rw (get_vfile_lem n path true, h'),
  rw (get_vfile_lem n path false, h),
  λ e. ground (arith, get_vfile_lem n path false),
)
