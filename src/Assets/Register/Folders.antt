-- ===== src/Assets/Register/Folders.antt =====
-- The folders that the registration makes.
use node_apphost.Base.{
  ℕ, Str, js, str_eq_refl, is_in, Bool, true, false, List, [], ◌∷◌, ◌++◌, some, if◌then◌else◌, ◌≡◌,
  ◌⊎◌, inl, inr, refl, arith, All, All-append,
}
use node_apphost.Base.Search.{starts_with}
use node_apphost.Assets.Paths.{replace_user}
use node_apphost.Assets.Fs.{register_assets}
use node_apphost.Assets.Register.{
  Storage, May, make_folder, real_paths, make_folders, create_real_path, storage_of, Process,
  register_process,
}

-- The folder is there, or an error has named it.
abbrev pub Settled : Storage → Str → Type 0
Settled d p = (is_in p d.made ≡ true) ⊎ (is_in p d.refused ≡ true)

is_in-append : (p q : Str) (ps : List Str) → is_in p ps ≡ true → is_in p (ps ++ q ∷ []) ≡ true
unfolding is_in
is_in-append p q [] h = cc
is_in-append p q (r ∷ ps) h = ground (arith, is_in-append p q ps)

is_in-append_self : (p : Str) (ps : List Str) → is_in p (ps ++ p ∷ []) ≡ true
unfolding is_in
is_in-append_self p [] = rw (str_eq_refl p)
is_in-append_self p (r ∷ ps) = ground (arith, is_in-append_self p ps)

module _ (may : May) where
  Settled-make_folder_self : (p : Str) (d : Storage) → Settled (make_folder may p d) p
  unfolding make_folder is_in
  Settled-make_folder_self p d = ground (arith, is_in-append_self p d.refused, str_eq_refl p)

  Settled-make_folder : (p q : Str) (d : Storage) → Settled d p → Settled (make_folder may q d) p
  unfolding make_folder is_in
  Settled-make_folder p q d (inl h) = ground arith
  Settled-make_folder p q d (inr h) = ground (arith, is_in-append p q d.refused h)

  Settled-make_folders :
      (ps : List Str) (p : Str) (d : Storage) → Settled d p → Settled (make_folders may ps d) p
  unfolding make_folders
  Settled-make_folders [] p d h = h
  Settled-make_folders (q ∷ ps) p d h = Settled-make_folders ps p _ (Settled-make_folder p q d h)

  make_folders-Settled : (ps : List Str) (d : Storage) → All (Settled (make_folders may ps d)) ps
  unfolding make_folders
  make_folders-Settled [] d = tt
  make_folders-Settled (p ∷ ps) d = (
    Settled-make_folders ps p _ (Settled-make_folder_self p d),
    make_folders-Settled ps (make_folder may p d),
  )

  All-Settled :
      (ps qs : List Str) (d : Storage)
      → All (Settled d) ps
      → All (Settled (make_folders may qs d)) ps
  All-Settled [] qs d h = tt
  All-Settled (p ∷ ps) qs d (h, hs) = (Settled-make_folders qs p d h, All-Settled ps qs d hs)

-- A folder, its folder `www`, and the folder `jxcore` in that.
abbrev pub with_www : Str → List Str
unfolding js
with_www path = path ∷ (path ++ js "/www") ∷ (path ++ js "/www/jxcore") ∷ []

-- The folders that a registration needs: the user's path with the two folders in it, and for a root
-- below /data/user/ its real place and the two folders there as well.
abbrev pub needed : Str → Str → List Str
needed root user_path =
    with_www user_path
    ++ (if starts_with (js "/data/user/") root then with_www (replace_user user_path) else [])

needed-Settled :
    (may : May) (linked : Bool) (a b : List Str) (d : Storage)
    → let d' = make_folders may a d in
      All (Settled (if linked then make_folders may b d' else d')) (a ++ (if linked then b else []))
needed-Settled may true a b d =
    All-append _ a b (All-Settled may a b _ (make_folders-Settled may a d))
      (make_folders-Settled may b _)
needed-Settled may false a b d = All-append _ a [] (make_folders-Settled may a d) tt

-- Whatever the disk allows, behind the registration the user's path, its folder /www and its folder
-- /www/jxcore, and for a root below /data/user/ the same three at the real place of that path, are each
-- on the disk or have been named in an error message; the process then runs from the root, finds its files in the
-- package, and looks for modules in the root and in the user's path, behind the places it had.
pub register_process_lem :
    (may : May) (root user_path : Str) (assets : List (Str × ℕ)) (p : Process)
    → let q = register_process may root user_path assets p in
      All (Settled q.storage) (needed root user_path)
      × (q.extension ≡ some (register_assets root assets))
      × (q.exec_path ≡ root)
      × (q.global_paths ≡ p.global_paths ++ root ∷ user_path ∷ [])
unfolding register_process storage_of create_real_path real_paths
register_process_lem may root user_path assets p = (
  needed-Settled may (starts_with (js "/data/user/") root) (with_www user_path)
      (with_www (replace_user user_path)) p.storage,
  refl,
  refl,
  refl,
)
