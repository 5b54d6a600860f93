-- ===== src/Vfs/Table/Defined.antt =====
-- From the definition of a file in native code to what `fs` answers for it.
use node_apphost.Base.{
  ℕ, suc, Str, str_eq, str_eq_refl, Bool, true, false, List, [], ◌∷◌, ◌++◌, none, some,
  if◌then◌else◌, length, arith, ◌≡◌, ◌⊎◌, inl, inr, refl, Bool-cases, ap, ◌∙◌,
}
use node_apphost.Vfs.{
  FileData, Stats, value, Node, clean, stat_sync, path_of, realpath_sync, read_file_sync,
}
use node_apphost.Vfs.Lookups.{virtual_file, spellings, first_data}
use node_apphost.Vfs.Table.{
  Utf8, VFile, Table, parent, get_file, get_file_data, with_table, define_file, define_files,
  data_of, vfile_args,
}
use node_apphost.Vfs.Table.Numbers.{made, get_file-add_file}

-- No definition of the list is under this name, as it is written or behind the parent's folder.
abbrev pub Untaken : Bool → Str → List (Str × Str) → Type 0
Untaken windows key [] = Unit
Untaken windows key ((name, file) ∷ more) =
    (str_eq name key ≡ false)
    × (str_eq (parent windows ++ name) key ≡ false)
    × Untaken windows key more

define_files-kept :
    (windows : Bool) (key : Str) (defs : List (Str × Str)) (t : Table)
    → Untaken windows key defs
    → get_file key (define_files windows defs t) ≡ get_file key t
unfolding define_files define_file
define_files-kept windows key [] t h = refl
define_files-kept windows key ((name, file) ∷ more) t (a, b, h) =
    define_files-kept windows key more _ h
    ∙ get_file-add_file windows name file (length file) t key
    ∙ rw (a, b) refl

either_name :
    {A : Type 0} (windows : Bool) (key name : Str) (x y : A)
    → (key ≡ name) ⊎ (key ≡ parent windows ++ name)
    → (if str_eq (parent windows ++ name) key then x else (if str_eq name key then x else y)) ≡ x
either_name windows key name x y (inl e) =
    rw (e, str_eq_refl name)
      (elim (Bool-cases (str_eq (parent windows ++ name) name)) [
        | inl a ↦ rw a refl
        | inr a ↦ rw a refl
      ])
either_name windows key name x y (inr e) = rw (e, str_eq_refl (parent windows ++ name)) refl

pub defined :
    (windows : Bool) (key name file : Str) (more : List (Str × Str)) (t : Table)
    → (key ≡ name) ⊎ (key ≡ parent windows ++ name)
    → Untaken windows key more
    → get_file key (define_files windows more (define_file windows name file t))
      ≡ some (made file (length file) t)
unfolding define_file
defined windows key name file more t h k =
    define_files-kept windows key more _ k
    ∙ get_file-add_file windows name file (length file) t key
    ∙ either_name windows key name _ _ h

clean-with_table :
    (u : Utf8) (t : Table) (n : Node) (s : Str) → clean (with_table u t n) s ≡ clean n s
unfolding clean with_table
clean-with_table u t n [] = refl
clean-with_table u t n (c ∷ s) = rw (clean-with_table u t n s) refl

asked :
    (u : Utf8) (t : Table) (s : Str) (b : Bool)
    → get_file_data u t (vfile_args s b) ≡ data_of u b (get_file (u.encode s) t)
unfolding get_file_data vfile_args
asked u t s true = refl
asked u t s false = refl

abbrev data_for : Utf8 → Bool → Str → ℕ → FileData
data_for u b file ino = record {
  ino = ino;
  length = length file;
  contents = if b then some (u.decode file) else none;
}

first_answer :
    (n : Node) (path : Str) (b : Bool) (d : FileData)
    → n.get_file_data (clean n (n.relative n.exec_path path)) b ≡ some d
    → first_data n b (spellings n path) ≡ some d
first_answer n path b d h = ground arith

found_first :
    (u : Utf8) (t : Table) (n : Node) (path : Str) (b : Bool) (f : VFile) (d : FileData)
    → get_file (u.encode (clean n (n.relative n.exec_path path))) t ≡ some f
    → data_of u b (some f) ≡ some d
    → first_data (with_table u t n) b (spellings (with_table u t n) path) ≡ some d
unfolding with_table
found_first u t n path b f d h e =
    let file = n.relative n.exec_path path in
    first_answer (with_table u t n) path b d (
      ap (λ s. get_file_data u t (vfile_args s b)) (clean-with_table u t n file)
      ∙ asked u t (clean n file) b
      ∙ ap (data_of u b) h
      ∙ e)

-- A file that native code defines is what `fs` answers for a path that is its name when it is seen
-- from the executable, or its name behind the parent's folder, unless that name is defined once
-- more later: its contents are the text, its real path is the path, and its stat object is the
-- executable's with the next number. The size of that object is undefined, since the native object
-- calls it `length` and the patched `statSync` reads `size`.
pub defined_file :
    (u : Utf8) (windows : Bool) (n : Node) (path key name file : Str) (more : List (Str × Str))
    (t : Table) (s : Stats)
    → (key ≡ name) ⊎ (key ≡ parent windows ++ name)
    → Untaken windows key more
    → u.encode (clean n (n.relative n.exec_path path)) ≡ key
    → n.orig_stat_sync n.exec_path ≡ value s
    → let n' = with_table u (define_files windows ((name, file) ∷ more) t) n in
      (stat_sync n' path ≡ value (record s { ino = suc t.inode_counter; size = none }))
      × (realpath_sync n' path ≡ value (path_of path))
      × (read_file_sync n' path ≡ value (some (u.decode file)))
unfolding define_files data_of
defined_file u windows n path key name file more t s h k e o =
    let t' = define_files windows more (define_file windows name file t) in
    let f = ap (λ p. get_file p t') e ∙ defined windows key name file more t h k in
    let found =
      λ (b : Bool). found_first u t' n path b _ (data_for u b file (suc t.inode_counter)) f refl in
    virtual_file (with_table u t' n) path _ _ s (found false) (found true) (unfold with_table in o)
