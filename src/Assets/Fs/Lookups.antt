-- ===== src/Assets/Fs/Lookups.antt =====
-- What the `fs` extension answers for a file of the package, and for a file that is not there.
use node_apphost.Base.{
  ℕ, ◌+◌, Str, js, false, List, [], ◌∷◌, ◌++◌, none, some, is_empty, ◌≡◌, ◌∙◌, refl,
}
use node_apphost.Base.Dict.{lookup, insert}
use node_apphost.Base.Text.{split_on}
use node_apphost.Base.Search.{starts_with, index_of, index_of-append, replace-append}
use node_apphost.Assets.Tree.{node, Forest, prep_virtual_dirs, directory, find_in, add_files, empty}
use node_apphost.Assets.Tree.Sizes.{last_size, size_at-empty, size_at-add_files, find_in-size_at}
use node_apphost.Assets.Paths.{strip_front, strip_back, parts}
use node_apphost.Assets.Fs.{
  Package, Stat, Archive, stat, Host, get_last, position, below_root, exists_sync, asset, no_value,
  read_file_sync, register_assets,
}

-- The text is not empty and has no slash at its ends.
abbrev pub NoSlashEnds : Str → Type 0
NoSlashEnds s = (strip_front s ≡ s) × (strip_back s ≡ s)

-- A root outside of `/data/user/`, where no second root is tried: `registered-package_at`.
module _ (h : Host) (c : ℕ) (cs : Str) (assets : List (Str × ℕ)) (file : Str) where
  abbrev pub package_at : Package
  package_at = record {
    root = c ∷ cs;
    sroot = c ∷ cs;
    has_root_link = false;
    roots = prep_virtual_dirs (c ∷ cs) assets;
  }

  pub registered-package_at :
      starts_with (js "/data/user/") (c ∷ cs) ≡ false → register_assets (c ∷ cs) assets ≡ package_at
  unfolding register_assets
  registered-package_at e = rw e refl

  -- The file's name, with no slash at its ends, below the root.
  abbrev pub below : Str
  below = (c ∷ cs) ++ b'/' ∷ file

  pub position-below : position package_at below ≡ some 0
  unfolding position
  position-below = rw (index_of-append (c ∷ cs) (b'/' ∷ file))

  pub below_root-below : below_root package_at below ≡ b'/' ∷ file
  unfolding below_root
  below_root-below = replace-append c cs [] (b'/' ∷ file) tt

  module _ (n : ℕ) (ends : NoSlashEnds file)
      (listed : last_size (split_on b'/' file) assets none ≡ some n) where
    found_in_root :
        (f : Forest) × (find_in h.chain
            (split_on b'/' file)
            (prep_virtual_dirs (c ∷ cs) assets).jxcore_root
          ≡ some (directory (node (some n) f)))
    unfolding prep_virtual_dirs
    found_in_root = find_in-size_at h.chain (split_on b'/' file) (add_files assets empty) n (
        size_at-add_files (split_on b'/' file) assets empty
        ∙ rw (size_at-empty (split_on b'/' file)) listed)

    get_last-file : (f : Forest) × (get_last h package_at file ≡ some (directory (node (some n) f)))
    unfolding get_last parts
    get_last-file = let (f, e) = found_in_root in (f, rw (ends.0, ends.1, e))

    get_last-below :
        (f : Forest) × (get_last h package_at (b'/' ∷ file) ≡ some (directory (node (some n) f)))
    unfolding get_last parts strip_front
    get_last-below = let (f, e) = found_in_root in (f, rw (ends.0, ends.1, e))

    -- For a file that the package lists, under the root, of which no stat object is kept yet,
    -- `existsSync` answers a stat object with the size of the last entry for the file and the mode
    -- of a file.
    pub exists_sync-file :
        (a : Archive)
        → lookup (b'/' ∷ file) a.stats ≡ none
        → let s : Stat = record { size = n; mode = 33188; ino = h.new_ino a.drawn } in
          exists_sync h package_at below a
          ≡ (stat s, record a { stats = insert (b'/' ∷ file) s a.stats; drawn = a.drawn + 1 })
    unfolding exists_sync
    exists_sync-file a fresh =
        let (f, e) = get_last-below in rw (position-below, below_root-below, e, fresh)

    -- And `readFileSync` asks for the asset of that name below `www/jxcore/`.
    pub read_file_sync-file :
        (a : Archive)
        → lookup (b'/' ∷ file) a.stats ≡ none
        → (read_file_sync h package_at below a).0 ≡ asset (h.join (js "www/jxcore/") (b'/' ∷ file))
    unfolding read_file_sync
    read_file_sync-file a fresh = rw (
      exists_sync-file a fresh,
      index_of-append (c ∷ cs) (b'/' ∷ file),
      replace-append c cs [] (b'/' ∷ file) tt,
    )

    pub exists_sync-relative :
        (a : Archive)
        → index_of (c ∷ cs) file ≡ none
        → is_empty file ≡ false
        → lookup file a.stats ≡ none
        → let s : Stat = record { size = n; mode = 33188; ino = h.new_ino a.drawn } in
          exists_sync h package_at file a
          ≡ (stat s, record a { stats = insert file s a.stats; drawn = a.drawn + 1 })
    unfolding exists_sync position
    exists_sync-relative a apart filled fresh =
        let (f, e) = get_last-file in rw (apart, filled, e, fresh)

    -- A relative path of a listed file, in which the root does not occur, exists by `existsSync`,
    -- and yet `readFileSync` gives no contents and does not throw.
    pub read_file_sync-relative :
        (a : Archive)
        → index_of (c ∷ cs) file ≡ none
        → is_empty file ≡ false
        → lookup file a.stats ≡ none
        → ((exists_sync h package_at file a).0
            ≡ stat (record { size = n; mode = 33188; ino = h.new_ino a.drawn }))
          × ((read_file_sync h package_at file a).0 ≡ no_value)
    unfolding read_file_sync
    read_file_sync-relative a apart filled fresh =
        let e = exists_sync-relative a apart filled fresh in (rw e, rw (e, apart))
