-- ===== src/Assets/Fs/Registered.antt =====
-- The extension of `fs` as `process.registerAssets` makes it, below `/data/user/` and elsewhere.
use node_apphost.Base.{
  ℕ, ◌+◌, Str, js, Bool, true, List, [], ◌∷◌, ◌++◌, none, some, if◌then◌else◌, ◌≡◌, refl, ◌∙◌,
  Bool-cases, inl, inr,
}
use node_apphost.Base.Dict.{lookup, insert}
use node_apphost.Base.Text.{split_on}
use node_apphost.Base.Search.{
  starts_with, index_of, index_of-append, replace-append, replace-absent,
}
use node_apphost.Assets.Tree.{node, Forest, prep_virtual_dirs, directory, add_files, empty}
use node_apphost.Assets.Tree.Sizes.{last_size, size_at-empty, size_at-add_files, find_in-size_at}
use node_apphost.Assets.Paths.{replace_user, strip_front, parts}
use node_apphost.Assets.Fs.{
  Package, Stat, Archive, stat, Host, get_last, position, below_root, exists_sync, register_assets,
}
use node_apphost.Assets.Fs.Lookups.{NoSlashEnds}

-- A package with a second root, which is tried if there is a root link.
module _ (h : Host) (c : ℕ) (cs second : Str) (linked : Bool) (assets : List (Str × ℕ)) (file : Str)
    (n : ℕ) (ends : NoSlashEnds file) (listed : last_size (split_on b'/' file) assets none ≡ some n)
    (apart : linked ≡ true → index_of second (b'/' ∷ file) ≡ none) where
  abbrev linked_package : Package
  linked_package = record {
    root = c ∷ cs;
    sroot = second;
    has_root_link = linked;
    roots = prep_virtual_dirs second assets;
  }

  linked_position : position linked_package ((c ∷ cs) ++ b'/' ∷ file) ≡ some 0
  unfolding position
  linked_position = rw (index_of-append (c ∷ cs) (b'/' ∷ file)) refl

  linked_below_root : below_root linked_package ((c ∷ cs) ++ b'/' ∷ file) ≡ b'/' ∷ file
  unfolding below_root
  linked_below_root = rw (replace-append c cs [] (b'/' ∷ file) tt) (elim (Bool-cases linked) [
    | inl e ↦ rw (e, replace-absent second [] (b'/' ∷ file) (apart e)) refl
    | inr e ↦ rw e refl
  ])

  linked_found :
      (f : Forest) × (get_last h linked_package (b'/' ∷ file) ≡ some (directory (node (some n) f)))
  unfolding get_last parts strip_front prep_virtual_dirs
  linked_found =
      let (f, e) = find_in-size_at h.chain (split_on b'/' file) (add_files assets empty) n (
        size_at-add_files (split_on b'/' file) assets empty
        ∙ rw (size_at-empty (split_on b'/' file)) listed) in
      (f, rw (ends.0, ends.1, e) refl)

  pub linked_exists_sync :
      (a : Archive)
      → lookup (b'/' ∷ file) a.stats ≡ none
      → let s : Stat = record { size = n; mode = 33188; ino = h.new_ino a.drawn } in
        exists_sync h linked_package ((c ∷ cs) ++ b'/' ∷ file) a
        ≡ (stat s, record a { stats = insert (b'/' ∷ file) s a.stats; drawn = a.drawn + 1 })
  unfolding exists_sync
  linked_exists_sync a fresh =
      let (f, e) = linked_found in rw (linked_position, linked_below_root, e, fresh) refl

  pub linked_exists_sync-again :
      (a : Archive) (s : Stat)
      → lookup (b'/' ∷ file) a.stats ≡ some s
      → exists_sync h linked_package ((c ∷ cs) ++ b'/' ∷ file) a ≡ (stat s, a)
  unfolding exists_sync
  linked_exists_sync-again a s known =
      let (f, e) = linked_found in rw (linked_position, linked_below_root, e, known) refl

-- A file that the listing names, its path the root, which is not empty, a slash, and a name without
-- slashes at its ends; for a root below /data/user/ that name behind a slash does not hold the root's
-- real place. If no stat object is kept for the path, `existsSync` answers one with the size of the
-- last entry for the file, the mode of a file and the next new inode number, and keeps it; if there is
-- one, it answers that one, and keeps everything as it is.
pub exists_sync-register_assets :
    (h : Host) (c : ℕ) (cs : Str) (assets : List (Str × ℕ)) (file : Str) (n : ℕ)
    → NoSlashEnds file
    → last_size (split_on b'/' file) assets none ≡ some n
    → (starts_with (js "/data/user/") (c ∷ cs) ≡ true
        → index_of (replace_user (c ∷ cs)) (b'/' ∷ file) ≡ none)
    → (a b : Archive) (kept : Stat) → lookup (b'/' ∷ file) a.stats ≡ none
    → lookup (b'/' ∷ file) b.stats ≡ some kept
    → let p = register_assets (c ∷ cs) assets in
      let path = (c ∷ cs) ++ b'/' ∷ file in
      let s : Stat = record { size = n; mode = 33188; ino = h.new_ino a.drawn } in
      (exists_sync h p path a
        ≡ (stat s, record a { stats = insert (b'/' ∷ file) s a.stats; drawn = a.drawn + 1 }))
      × (exists_sync h p path b ≡ (stat kept, b))
unfolding register_assets
exists_sync-register_assets h c cs assets file n ends listed apart a b kept fresh known =
    let linked = starts_with (js "/data/user/") (c ∷ cs) in
    let second = if linked then replace_user (c ∷ cs) else (c ∷ cs) in
    let apart' : linked ≡ true → index_of second (b'/' ∷ file) ≡ none = λ e. rw e (apart e) in
    (
      linked_exists_sync h c cs second linked assets file n ends listed apart' a fresh,
      linked_exists_sync-again h c cs second linked assets file n ends listed apart' b kept known,
    )
