-- ===== src/Build/Disk/Batches.antt =====
-- The batch files on the disk, when `createBatch` returns.
use node_apphost.Base.{
  is_in, Str, str_eq, str_eq_refl, true, false, List, [], ◌∷◌, some, ◌≡◌, ◌⊎◌, inl, inr, refl, ◌∙◌,
  arith, All,
}
use node_apphost.Base.Dict.{lookup, insert, has-lookup, lookup-insert_self, lookup-insert_other}
use node_apphost.Build.Disk.{
  Disk, System, is_folder, is_executable, on_disk, write_file, chmod, write_all, chmod_all,
}

-- Each file's path is in the given folder, is no folder itself, and differs from the later paths.
abbrev pub Differs : System → Str → List (Str × Str) → Type 0
Differs sys p [] = Unit
Differs sys p ((q, c) ∷ fs) =
    (str_eq (sys.host.resolve q) (sys.host.resolve p) ≡ false) × Differs sys p fs

abbrev pub Writable : System → Str → List (Str × Str) → Disk → Type 0
Writable sys folder [] d = Unit
Writable sys folder ((p, c) ∷ fs) d =
    (sys.parent (sys.host.resolve p) ≡ folder)
    × (is_folder (sys.host.resolve p) d ≡ false)
    × Differs sys p fs
    × Writable sys folder fs d

-- The file is on the disk with its contents.
abbrev pub Written : System → Disk → Str × Str → Type 0
Written sys d f = lookup (sys.host.resolve f.0) d.files ≡ some f.1

module _ (sys : System) where
  -- The disk behind the writes.
  unfoldable pub after : List (Str × Str) → Disk → Disk
  after [] d = d
  after ((p, c) ∷ fs) d = after fs (record d { files = insert (sys.host.resolve p) c d.files })

  Writable-insert :
      (folder : Str) (fs : List (Str × Str)) (q c : Str) (d : Disk)
      → Writable sys folder fs d
      → Writable sys folder fs (record d { files = insert q c d.files })
  unfolding is_folder
  Writable-insert folder [] q c d h = tt
  Writable-insert folder ((p, c') ∷ fs) q c d (a, b, e, h) =
      (a, b, e, Writable-insert folder fs q c d h)

  pub write_all-after :
      (folder : Str) (fs : List (Str × Str)) (d : Disk)
      → is_folder folder d ≡ true
      → Writable sys folder fs d
      → write_all sys fs d ≡ some (after fs d)
  unfolding write_all write_file after is_folder
  write_all-after folder [] d h w = refl
  write_all-after folder ((p, c) ∷ fs) d h (a, b, x, w) =
      rw (a, h, b)
        (write_all-after folder fs _ h (Writable-insert folder fs (sys.host.resolve p) c d w))

  lookup-after :
      (p : Str) (fs : List (Str × Str)) (d : Disk)
      → Differs sys p fs
      → lookup (sys.host.resolve p) (after fs d).files ≡ lookup (sys.host.resolve p) d.files
  unfolding after
  lookup-after p [] d e = refl
  lookup-after p ((q, c) ∷ fs) d (e, es) =
      lookup-after p fs _ es
      ∙ lookup-insert_other (sys.host.resolve q) (sys.host.resolve p) c d.files e

  pub Written-after :
      (folder : Str) (fs : List (Str × Str)) (d : Disk)
      → Writable sys folder fs d
      → All (Written sys (after fs d)) fs
  unfolding after
  Written-after folder [] d w = tt
  Written-after folder ((p, c) ∷ fs) d (a, b, x, w) = (
    lookup-after p fs _ x ∙ lookup-insert_self (sys.host.resolve p) c d.files,
    Written-after folder fs _ (Writable-insert folder fs (sys.host.resolve p) c d w),
  )

  -- A file whose name is in the list.
  abbrev pub Named : Str → List (Str × Str) → Type 0
  Named p [] = ⊥
  Named p ((q, c) ∷ fs) = (q ≡ p) ⊎ Named p fs

  pub on_disk-Named :
      (p : Str) (fs : List (Str × Str)) (d : Disk)
      → All (Written sys d) fs
      → Named p fs
      → on_disk (sys.host.resolve p) d ≡ true
  unfolding on_disk
  on_disk-Named p [] d w h = absurd h
  on_disk-Named p ((q, c) ∷ fs) d (e, w) (inl same) =
      ground (arith, has-lookup (sys.host.resolve p) d.files)
  on_disk-Named p ((q, c) ∷ fs) d (e, w) (inr h) = on_disk-Named p fs d w h

  -- The modes behind the calls of `chmod`.
  unfoldable pub moded : List Str → Disk → Disk
  moded [] d = d
  moded (p ∷ ps) d = moded ps (record d { executable = sys.host.resolve p ∷ d.executable })

  pub chmod_all-moded :
      (ps : List Str) (d : Disk)
      → All (λ p. on_disk (sys.host.resolve p) d ≡ true) ps
      → chmod_all sys ps d ≡ some (moded ps d)
  unfolding chmod_all chmod moded on_disk is_folder
  chmod_all-moded [] d h = refl
  chmod_all-moded (p ∷ ps) d (e, h) = rw e (chmod_all-moded ps _ h)

  pub files-moded : (ps : List Str) (d : Disk) → (moded ps d).files ≡ d.files
  unfolding moded
  files-moded [] d = refl
  files-moded (p ∷ ps) d = files-moded ps _

  kept-moded :
      (q : Str) (ps : List Str) (d : Disk)
      → is_executable q d ≡ true
      → is_executable q (moded ps d) ≡ true
  unfolding moded is_executable is_in
  kept-moded q [] d h = h
  kept-moded q (p ∷ ps) d h = kept-moded q ps _ (ground arith)

  pub is_executable-moded :
      (ps : List Str) (d : Disk)
      → All (λ p. is_executable (sys.host.resolve p) (moded ps d) ≡ true) ps
  unfolding moded is_executable is_in
  is_executable-moded [] d = tt
  is_executable-moded (p ∷ ps) d = (
    kept-moded (sys.host.resolve p) ps _ (rw (str_eq_refl (sys.host.resolve p))),
    is_executable-moded ps _,
  )
