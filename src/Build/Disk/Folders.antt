-- ===== src/Build/Disk/Folders.antt =====
-- The folders that build.js makes.
use node_apphost.Base.{is_in, Str, str_eq_refl, true, false, none, some, ◌≡◌, ◌↔◌, arith}
use node_apphost.Build.Disk.{Disk, System, is_folder, on_disk, safe_create}

-- `safeCreate` throws exactly when the target is not on the disk and cannot be made there; when it
-- returns, the target is on the disk, and files and modes are as they were.
pub safe_create_lem :
    (sys : System) (target : Str) (d : Disk)
    → let p = sys.host.join sys.host.dirname target in
      ((safe_create sys target d ≡ none) ↔ ((on_disk p d ≡ false) × (sys.may_create p ≡ false)))
      × ((d' : Disk)
          → safe_create sys target d ≡ some d'
          → (on_disk p d' ≡ true) × (d'.files ≡ d.files) × (d'.executable ≡ d.executable))
unfolding safe_create on_disk is_folder is_in
safe_create_lem sys target d =
    let p = sys.host.join sys.host.dirname target in
    (((λ e. ground arith), λ h. ground arith), λ d' e. ground (arith, str_eq_refl p))
