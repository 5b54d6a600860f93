-- ===== src/Assets/Fs/Listing.antt =====
-- The extension of `fs` against the listing of the package: which paths exist, and what a directory
-- holds.
use node_apphost.Base.{
  ℕ, Str, js, is_in, str_eq, Bool, true, false, List, [], ◌∷◌, ◌++◌, Option, none, some,
  if◌then◌else◌, ◌≡◌, ◌↔◌, inl, inr, refl, sym, ◌∙◌, arith, All, Option-cases, str_eq_refl,
}
use node_apphost.Base.Text.{split_on}
use node_apphost.Base.Search.{index_of, starts_with}
use node_apphost.Assets.Tree.{
  Tree, node, Forest, nil, entry, empty, child, add_files, find_in, member_of, prep_virtual_dirs,
  wrap, shift_empty,
}
use node_apphost.Assets.Tree.Walks.{
  node_at-listed, node_at, below, is_some, leads_on, node_at-package, IsPlain, found_of,
  find_in-node_at,
}
use node_apphost.Assets.Paths.{parts, strip_front}
use node_apphost.Assets.Fs.{
  Archive, missing, Host, get_last, or_found, answer, archived, exists_sync, names, list_entries,
  read_dir_sync, register_assets,
}
use node_apphost.Assets.Fs.Lookups as Lookups
use node_apphost.Assets.Fs.Lookups.{
  package_at, registered-package_at, NoSlashEnds, position-below, below_root-below,
}

answer-missing :
    (h : Host) (key : Str) (o : Option Tree) (a : Archive)
    → ((answer h key (found_of o) a).0 ≡ missing) ↔ (is_some o ≡ false)
unfolding answer archived
answer-missing h key none a = ((λ e. refl), λ e. refl)
answer-missing h key (some t) a = ((λ e. ground arith), λ e. absurd (cc))

or_found-none : (o : Option Tree) → or_found (found_of o) none ≡ found_of o
unfolding or_found
or_found-none none = refl
or_found-none (some t) = refl

-- A root outside of `/data/user/`, and a path of plain names below it that does not lead through the
-- directories of the root itself.
module _ (h : Host) (c : ℕ) (cs : Str) (assets : List (Str × ℕ)) (file a : Str) (q : List Str)
    (ends : NoSlashEnds file) (split : split_on b'/' file ≡ a ∷ q) (plain : All IsPlain (a ∷ q))
    (apart : find_in h.chain (a ∷ q) (prep_virtual_dirs (c ∷ cs) assets).folders ≡ none) where
  get_last-node_at :
      get_last h (package_at h c cs assets file) (b'/' ∷ file)
      ≡ found_of (node_at (a ∷ q) (add_files assets empty))
  unfolding get_last parts strip_front prep_virtual_dirs
  get_last-node_at =
      rw
        (
          ends.0,
          ends.1,
          split,
          apart,
          find_in-node_at h.chain (a ∷ q) (add_files assets empty) plain,
        )
        (or_found-none (node_at (a ∷ q) (add_files assets empty)))

  -- `existsSync` says that the path is missing exactly if the package lists no file at it and none
  -- below it, so that it exists exactly if it is a listed file or a directory on the way to one.
  pub exists_sync-missing :
      (ar : Archive)
      → ((exists_sync h (package_at h c cs assets file) (Lookups.below h c cs assets file) ar).0
          ≡ missing)
        ↔ (leads_on (split_on b'/' file) assets ≡ false)
  unfolding exists_sync
  exists_sync-missing ar =
      rw
        (
          position-below h c cs assets file,
          below_root-below h c cs assets file,
          get_last-node_at,
          split,
          ← node_at-package a q assets,
        )
        (answer-missing h (b'/' ∷ file) (node_at (a ∷ q) (add_files assets empty)) ar)

is_in-names : (k : Str) (f : Forest) → is_in k (names f) ≡ is_some (child k f)
unfolding is_in names child
is_in-names k nil = refl
is_in-names k (entry j t f) = ground (arith, is_in-names k f)

step_below : (k : Str) (o : Option Tree) → is_some (below o (node_at [])) ≡ is_some o
unfolding node_at
step_below k none = refl
step_below k (some t) = refl

-- The names in a directory are the ways on from it.
node_at-names :
    (k : Str) (q : List Str) (t : Tree) (n : Option ℕ) (f : Forest)
    → node_at q t ≡ some (node n f)
    → is_some (node_at (q ++ k ∷ []) t) ≡ is_in k (names f)
unfolding node_at
node_at-names k [] (node m g) n f h = ground (arith, is_in-names k g, step_below k (child k g))
node_at-names k (b ∷ q) (node s g) n f h = elim (Option-cases (child b g)) [
  | inl e ↦ let h' : none ≡ some (node n f) = rw e at h in absurd (cc)
  | inr (t, e) ↦ rw e (node_at-names k q t n f (rw e at h))
]

abbrev pub jxcore : Str
unfolding js
jxcore = js "jxcore"

-- The directories of a root that ends in `jxcore` lead to the package's tree.
find_in-wrap :
    (chain : List Str → Bool) (rs q : List Str) (files : Tree)
    → All (λ r. str_eq r jxcore ≡ false) rs
    → find_in chain (rs ++ jxcore ∷ q) (wrap (rs ++ jxcore ∷ []) files) ≡ find_in chain q files
unfolding find_in wrap child js str_eq member_of
find_in-wrap chain [] q files h = refl
find_in-wrap chain (r ∷ rs) q files (h, hs) =
    rw (h, find_in, str_eq_refl r, member_of) (find_in-wrap chain rs q files hs)

if_same : (b : Bool) (s : Str) → (if b then s else s) ≡ s
if_same true s = refl
if_same false s = refl

found_none : (o : Option Tree) → is_some o ≡ false → found_of o ≡ none
found_none none h = refl
found_none (some t) h = absurd (cc)

-- A package with a root that ends in `jxcore`, and a path below it.
module _ (h : Host) (c : ℕ) (cs : Str) (assets : List (Str × ℕ)) (rs q : List Str) (pathname : Str)
    (root : shift_empty (split_on b'/' (c ∷ cs)) ≡ rs ++ jxcore ∷ [])
    (rooted : index_of (c ∷ cs) pathname ≡ some 0) (walked : parts pathname ≡ rs ++ jxcore ∷ q)
    (once : All (λ r. str_eq r jxcore ≡ false) rs) (plain : All IsPlain (rs ++ jxcore ∷ q))
    (plain_below : All IsPlain q) (apart : leads_on (rs ++ jxcore ∷ q) assets ≡ false) where
  not_in_files : find_in h.chain (rs ++ jxcore ∷ q) (add_files assets empty) ≡ none
  not_in_files =
      find_in-node_at h.chain (rs ++ jxcore ∷ q) (add_files assets empty) plain
      ∙ found_none (node_at (rs ++ jxcore ∷ q) (add_files assets empty))
          (node_at-listed rs jxcore q assets ∙ apart)

  get_last-rooted :
      get_last h (package_at h c cs assets pathname) pathname
      ≡ found_of (node_at q (add_files assets empty))
  unfolding get_last prep_virtual_dirs or_found
  get_last-rooted = rw (
    walked,
    not_in_files,
    root,
    find_in-wrap h.chain rs q (add_files assets empty) once,
    find_in-node_at h.chain q (add_files assets empty) plain_below,
  )

  read_dir_sync-package_at :
      (f : Forest)
      → node_at q (add_files assets empty) ≡ some (node none f)
      → (read_dir_sync h (package_at h c cs assets pathname) pathname ≡ some (names f))
        × ((k : Str) → is_in k (names f) ≡ leads_on (q ++ k ∷ []) assets)
  unfolding read_dir_sync list_entries
  read_dir_sync-package_at f there = (
    rw (if_same (starts_with (js "/data/") pathname) (c ∷ cs), rooted, get_last-rooted, there),
    λ k.
        sym (node_at-names k q (add_files assets empty) none f there)
        ∙ node_at-listed q k [] assets,
  )

-- A root outside of /data/user/ whose last folder is `jxcore` and which has no other of that name; and
-- a path that begins with the root and walks by its folders and then `q`, all of them names that
-- are not inherited and not `!s`, where no listed file is at that walk from the package's own root,
-- or below it. If `q` leads to a folder of the package that has no size, `readDirSync` of the path
-- lists the names that some listed path goes on with from `q`, and no others.
pub read_dir_sync-names :
    (h : Host) (c : ℕ) (cs : Str) (assets : List (Str × ℕ)) (rs q : List Str) (pathname : Str)
    (f : Forest)
    → starts_with (js "/data/user/") (c ∷ cs) ≡ false
    → shift_empty (split_on b'/' (c ∷ cs)) ≡ rs ++ jxcore ∷ []
    → index_of (c ∷ cs) pathname ≡ some 0
    → parts pathname ≡ rs ++ jxcore ∷ q
    → All (λ r. str_eq r jxcore ≡ false) rs
    → All IsPlain (rs ++ jxcore ∷ q)
    → All IsPlain q
    → leads_on (rs ++ jxcore ∷ q) assets ≡ false
    → node_at q (add_files assets empty) ≡ some (node none f)
    → (read_dir_sync h (register_assets (c ∷ cs) assets) pathname ≡ some (names f))
      × ((k : Str) → is_in k (names f) ≡ leads_on (q ++ k ∷ []) assets)
read_dir_sync-names h c cs assets rs q pathname f outside root rooted walked once plain plain_below
      apart there =
    rw (registered-package_at h c cs assets pathname outside) (
      read_dir_sync-package_at h c cs assets rs q pathname root rooted walked once plain plain_below
        apart f there)
