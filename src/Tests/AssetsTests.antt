-- ===== src/Tests/AssetsTests.antt =====
-- The `fs` extension for the package, run.
use node_apphost.Base.{
  is_in, All, none, some, ℕ, ◌+◌, Str, js, str_eq, false, List, [], ◌∷◌, ◌++◌, ◌≡◌, refl,
}
use node_apphost.Base.Dict.{lookup, insert}
use node_apphost.Base.Text.{split_on}
use node_apphost.Base.Search.{index_of, starts_with}
use node_apphost.Assets.Register.{Process, register_process}
use node_apphost.Assets.Register.Folders.{Settled, needed, register_process_lem}
use node_apphost.Assets.Fs.{register_assets}
use node_apphost.Mobile.Methods.{is_inherited}
use node_apphost.Assets.Tree.{node, nil, entry, add_files, shift_empty}
use node_apphost.Assets.Tree.Walks.{node_at, leads_on, IsPlain}
use node_apphost.Assets.Fs.{names, read_dir_sync}
use node_apphost.Assets.Fs.Listing.{jxcore, read_dir_sync-names}
use node_apphost.Assets.Paths.{replace_user, parts, strip_front, strip_back}
use node_apphost.Assets.Fs.{Stat, Archive, stat, Host, exists_sync}
use node_apphost.Assets.Fs.Lookups.{NoSlashEnds}
use node_apphost.Assets.Fs.Registered.{exists_sync-register_assets}

abbrev host : Host
host = record { new_ino = λ n. 700 + n; join = λ a b. a ++ b; chain = λ what. false }

abbrev user_root : Str
unfolding js
user_root = js "data/user/0/x/www/jxcore"

abbrev listing : List (Str × ℕ)
listing = (js "a.js", 5) ∷ (js "lib/b.js", 7) ∷ (js "a.js", 9) ∷ []

abbrev no_stats : Archive
no_stats = record { stats = []; drawn = 0 }

b_ends : NoSlashEnds (js "lib/b.js")
unfolding js strip_front strip_back
b_ends = (refl, refl)

abbrev kept_stat : Stat
kept_stat = record { size = 7; mode = 33188; ino = 650 }

-- A root below /data/user/.
exists_sync-register_assets_example :
    let p = register_assets (b'/' ∷ user_root) listing in
    let path = (b'/' ∷ user_root) ++ b'/' ∷ js "lib/b.js" in
    let s : Stat = record { size = 7; mode = 33188; ino = 700 } in
    (exists_sync host p path no_stats
      ≡ (stat s, record { stats = insert (b'/' ∷ js "lib/b.js") s []; drawn = 1 }))
    × (exists_sync host p path (record { stats = (js "/lib/b.js", kept_stat) ∷ []; drawn = 4 })
        ≡ (stat kept_stat, record { stats = (js "/lib/b.js", kept_stat) ∷ []; drawn = 4 }))
unfolding js split_on str_eq lookup index_of starts_with replace_user
exists_sync-register_assets_example =
    exists_sync-register_assets host b'/' user_root listing (js "lib/b.js") 7 b_ends refl
      (λ e. refl) no_stats (record { stats = (js "/lib/b.js", kept_stat) ∷ []; drawn = 4 })
      kept_stat refl refl

abbrev before : Process
before = record {
  storage = record { made = []; refused = [] };
  exec_path = [];
  extension = none;
  global_paths = [];
}

-- A disk on which nothing can be made.
register_process_lem_example :
    let q =
      register_process (λ p fs. false) (js "/data/user/0/x") (js "/data/user/0/x") [] before in
    All (Settled q.storage) (needed (js "/data/user/0/x") (js "/data/user/0/x"))
    × (q.extension ≡ some (register_assets (js "/data/user/0/x") []))
    × (q.exec_path ≡ js "/data/user/0/x")
    × (q.global_paths ≡ js "/data/user/0/x" ∷ js "/data/user/0/x" ∷ [])
register_process_lem_example =
    register_process_lem (λ p fs. false) (js "/data/user/0/x") (js "/data/user/0/x") [] before

b_IsPlain : All IsPlain (js "lib" ∷ js "b.js" ∷ [])
unfolding js is_inherited str_eq
b_IsPlain = ((refl, refl), ((refl, refl), tt))

-- The root `/h/jxcore`, and its folder `lib`.
abbrev root : Str
root = b'h' ∷ b'/' ∷ jxcore

lib_IsPlain : All IsPlain (js "h" ∷ jxcore ∷ js "lib" ∷ []) × All IsPlain (js "lib" ∷ [])
unfolding js is_inherited str_eq
lib_IsPlain = (((refl, refl), ((refl, refl), ((refl, refl), tt))), ((refl, refl), tt))

read_dir_sync-names_example :
    let inside = entry (js "b.js") (node (some 7) nil) nil in
    (read_dir_sync host (register_assets (b'/' ∷ root) listing) (js "/h/jxcore/lib")
      ≡ some (names inside))
    × ((k : Str) → is_in k (names inside) ≡ leads_on (js "lib" ∷ k ∷ []) listing)
unfolding js split_on str_eq index_of starts_with parts strip_front strip_back shift_empty node_at
    add_files
read_dir_sync-names_example =
    read_dir_sync-names host b'/' root listing (js "h" ∷ []) (js "lib" ∷ []) (js "/h/jxcore/lib")
      (entry (js "b.js") (node (some 7) nil) nil) refl refl refl refl (refl, tt) lib_IsPlain.0
      lib_IsPlain.1 refl refl
