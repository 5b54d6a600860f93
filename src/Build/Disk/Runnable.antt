-- ===== src/Build/Disk/Runnable.antt =====
-- The batch files that the queue of tasks runs are there and can be run.
use node_apphost.Base.{
  is_in, Str, js, Bool, true, false, List, [], ◌∷◌, ◌++◌, some, if◌then◌else◌, ◌≡◌, ◌⊎◌, inl, inr,
  refl, arith, All, str_eq_refl,
}
use node_apphost.Base.Dict.{lookup}
use node_apphost.Build.{Settings}
use node_apphost.Build.Main.{batch_files}
use node_apphost.Build.Disk.{
  Disk, System, is_folder, is_executable, on_disk, make_temp, write_all, chmod_all, chmod_names,
  create_batch,
}
use node_apphost.Build.Disk.Batches.{
  Writable, Written, after, write_all-after, Written-after, on_disk-Named, moded, chmod_all-moded,
  files-moded, is_executable-moded,
}

module _ (sys : System) (d : Disk) where
  abbrev pub temp : Str
  temp = sys.host.resolve (js "./temp")

  -- `./temp` is a folder, or nothing stands there and the folder can be made.
  abbrev pub TempReady : Type 0
  TempReady = (is_folder temp d ≡ true) ⊎ ((on_disk temp d ≡ false) × (sys.may_create temp ≡ true))

  is_folder-make_temp : TempReady → is_folder temp (make_temp sys d) ≡ true
  unfolding make_temp is_folder is_in on_disk
  is_folder-make_temp (inl h) = ground arith
  is_folder-make_temp (inr (h, k)) = ground (arith, str_eq_refl temp)

-- The file is on the disk with its contents, and its mode is 0755.
abbrev pub Runnable : System → Disk → Str × Str → Type 0
Runnable sys d f =
    (lookup (sys.host.resolve f.0) d.files ≡ some f.1)
    × (is_executable (sys.host.resolve f.0) d ≡ true)

unix_part :
    (b : Bool) (f : Str × Str) (xs ys zs : List (Str × Str))
    → b ≡ false
    → f ∷ ((if b then xs else ys) ++ zs) ≡ f ∷ (ys ++ zs)
unix_part b f xs ys zs h = rw h

batch_files_unix :
    (sys : System) (text : Str) (st : Settings)
    → sys.host.is_windows ≡ false
    → (a b c e : Str) × (batch_files sys.host text st
        ≡ (js "./temp/compile.bat", text)
          ∷ (js "./temp/clean.bat", a)
          ∷ (js "./temp/checkout_node.bat", b)
          ∷ (js "./temp/checkout_jxcore.bat", c)
          ∷ (js "./temp/test.bat", e)
          ∷ [])
unfolding batch_files
batch_files_unix sys text st h = (_, _, _, _, unix_part sys.host.is_windows _ _ _ _ h)

abbrev five : Str → Str → Str → Str → Str → List (Str × Str)
five text a b c e =
    (js "./temp/compile.bat", text)
    ∷ (js "./temp/clean.bat", a)
    ∷ (js "./temp/checkout_node.bat", b)
    ∷ (js "./temp/checkout_jxcore.bat", c)
    ∷ (js "./temp/test.bat", e)
    ∷ []

module _ (sys : System) (text a b c e : Str) (d : Disk) where
  chmod_all-five :
      All (Written sys d) (five text a b c e)
      → (d' : Disk) × (chmod_all sys chmod_names d ≡ some d')
        × All (Runnable sys d') (five text a b c e)
  unfolding chmod_names
  chmod_all-five (w₁, (w₂, (w₃, (w₄, (w₅, _))))) =
      let fs = five text a b c e in
      let w : All (Written sys d) fs = (w₁, (w₂, (w₃, (w₄, (w₅, tt))))) in
      let same = files-moded sys chmod_names d in
      let (x₁, (x₂, (x₃, (x₄, (x₅, _))))) = is_executable-moded sys chmod_names d in
      (
        moded sys chmod_names d,
        chmod_all-moded sys chmod_names d (
          on_disk-Named sys (js "./temp/test.bat") fs d w (inr (inr (inr (inr (inl refl))))),
          (
            on_disk-Named sys (js "./temp/clean.bat") fs d w (inr (inl refl)),
            (
              on_disk-Named sys (js "./temp/compile.bat") fs d w (inl refl),
              (
                on_disk-Named sys (js "./temp/checkout_node.bat") fs d w (inr (inr (inl refl))),
                (
                  on_disk-Named sys (js "./temp/checkout_jxcore.bat") fs d w
                      (inr (inr (inr (inl refl)))),
                  tt,
                ),
              ),
            ),
          ),
        ),
        (
          (rw same w₁, x₃),
          ((rw same w₂, x₂), ((rw same w₃, x₄), ((rw same w₄, x₅), ((rw same w₅, x₁), tt)))),
        ),
      )

create_batch-files :
    (sys : System) (fs : List (Str × Str)) (d : Disk)
    → TempReady sys d
    → Writable sys (temp sys d) fs (make_temp sys d)
    → (write_all sys fs (make_temp sys d) ≡ some (after sys fs (make_temp sys d)))
      × All (Written sys (after sys fs (make_temp sys d))) fs
create_batch-files sys fs d ready w = (
  write_all-after sys (temp sys d) fs (make_temp sys d) (is_folder-make_temp sys d ready) w,
  Written-after sys (temp sys d) fs (make_temp sys d) w,
)

create_batch-unix :
    (sys : System) (text : Str) (st : Settings) (fs : List (Str × Str)) (d d' d'' : Disk)
    → sys.host.is_windows ≡ false
    → batch_files sys.host text st ≡ fs
    → write_all sys fs (make_temp sys d) ≡ some d'
    → chmod_all sys chmod_names d' ≡ some d''
    → create_batch sys text st d ≡ some d''
unfolding create_batch
create_batch-unix sys text st fs d d' d'' unix files written moded = rw (files, written, unix) moded

-- On a system that is not Windows, where `./temp` is a folder or can be made, and the paths of the
-- batch files are different and free or files: `createBatch` returns, and each of the five batch
-- files is on the disk with its text, and can be run.
pub create_batch_lem :
    (sys : System) (text : Str) (st : Settings) (d : Disk)
    → sys.host.is_windows ≡ false
    → TempReady sys d
    → Writable sys (temp sys d) (batch_files sys.host text st) (make_temp sys d)
    → (d' : Disk) × (create_batch sys text st d ≡ some d')
      × All (Runnable sys d') (batch_files sys.host text st)
create_batch_lem sys text st d unix ready w =
    let (a, b, c, e, files) = batch_files_unix sys text st unix in
    let (ran, written) = create_batch-files sys (five text a b c e) d ready (rw files at w) in
    let (d', moded, runnable) =
      chmod_all-five sys text a b c e (after sys (five text a b c e) (make_temp sys d)) written in
    (d', create_batch-unix sys text st _ d _ d' unix files ran moded, rw files runnable)
