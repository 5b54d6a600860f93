-- ===== src/Launch/Packaged.antt =====
-- From the entries of the archive to what `existsSync` answers.
use node_apphost.Base.{
  ℕ, Str, js, str_eq, str_eq-eq, Bool, false, List, [], ◌∷◌, none, some, if◌then◌else◌, ◌&&◌, ◌||◌,
  ◌≡◌, ◌↔◌, refl, arith, ap, ◌∙◌, Bool-cases, inl, inr, All, drop,
}
use node_apphost.Base.Dict.{Dict, insert}
use node_apphost.Base.Text.{split_on}
use node_apphost.Base.Search.{starts_with}
use node_apphost.Assets.Tree.{
  Tree, node, nil, entry, find_in, wrap, child, member_of, shift_empty, prep_virtual_dirs,
}
use node_apphost.Assets.Tree.Walks.{is_prefix, leads_on, IsPlain}
use node_apphost.Assets.Fs.{Archive, Host, missing, exists_sync}
use node_apphost.Assets.Fs.Lookups as Lookups
use node_apphost.Assets.Fs.Lookups.{package_at, NoSlashEnds}
use node_apphost.Assets.Fs.Listing.{exists_sync-missing}
use node_apphost.Launch.{Apk, folder, names_of, assets_text}
use node_apphost.Launch.Reader.{read_object}
use node_apphost.Launch.Listing.{listed, HasClearNames, read_object-assets_text}

leads_on-insert :
    (q : List Str) (k : Str) (n : ℕ) (d : Dict ℕ)
    → leads_on q (insert k n d) ≡ (is_prefix q (split_on b'/' k) || leads_on q d)
unfolding insert
leads_on-insert q k n [] = refl
leads_on-insert q k n ((j, m) ∷ d) = elim (Bool-cases (str_eq j k)) [
  | inl e ↦ let s = str_eq-eq j k e in rw (e, ← s) (ground arith)
  | inr e ↦ rw (e, leads_on-insert q k n d) (ground arith)
]

-- Some entry of the archive, below the folder of the package, is at this path or goes on from it.
abbrev pub packaged : List Str → List Str → Bool
packaged q [] = false
packaged q (n ∷ ns) =
    (starts_with folder n && is_prefix q (split_on b'/' (drop 18 n))) || packaged q ns

leads_on-listed :
    (q : List Str) (apk : Apk) (ns : List Str) (d : Dict ℕ)
    → leads_on q (listed apk ns d) ≡ (packaged q ns || leads_on q d)
leads_on-listed q apk [] d = refl
leads_on-listed q apk (n ∷ ns) d = elim (Bool-cases (starts_with folder n)) [
  | inl e ↦ rw e (
      leads_on-listed q apk ns (insert (drop 18 n) (apk.asset_size (drop 7 n)) d)
      ∙ ap (λ b. packaged q ns || b) (leads_on-insert q (drop 18 n) (apk.asset_size (drop 7 n)) d)
      ∙ ground arith)
  | inr e ↦ rw e (leads_on-listed q apk ns d)
]

-- The folder of the virtual tree that the path of the application begins with.
abbrev pub first_folder : List Str → Str
first_folder [] = js "jxcore"
first_folder (r ∷ rs) = let rest = first_folder rs in if str_eq r (js "jxcore") then rest else r

not_in_folder :
    (chain : List Str → Bool) (a : Str) (q : List Str) (k : Str) (t : Tree)
    → IsPlain a
    → str_eq k a ≡ false
    → find_in chain (a ∷ q) (node none (entry k t nil)) ≡ none
unfolding find_in child member_of
not_in_folder chain a q k t (p, s) h =
    let e : child a (entry k t nil) ≡ none = rw h refl in
    let m : member_of a none none ≡ none = rw (s, p) refl in ground (arith, e, m)

apart_from_root :
    (chain : List Str → Bool) (a : Str) (q rs : List Str) (files : Tree)
    → IsPlain a
    → str_eq (first_folder rs) a ≡ false
    → find_in chain (a ∷ q) (wrap rs files) ≡ none
unfolding wrap
apart_from_root chain a q [] files p h = not_in_folder chain a q (js "jxcore") files p h
apart_from_root chain a q (r ∷ rs) files p h = elim (Bool-cases (str_eq r (js "jxcore"))) [
  | inl e ↦ rw e (apart_from_root chain a q rs files p (rw e at h))
  | inr e ↦ rw e (not_in_folder chain a q r (wrap rs files) p (rw e at h))
]

-- From the archive of the application to a module of JavaScript: from the text that `Initialize` makes of
-- the entries, `JSON.parse` reads a listing, if their names need no escapes; and with the
-- package registered with that listing, a path of plain names below the root exists for
-- `existsSync` exactly if an entry of the archive in `assets/www/jxcore/` is at it or below it.
-- The root is taken as it is, as all are but those in `/data/user/`, and the path may not begin
-- with the first folder of the root itself.
pub exists_sync-packaged :
    (apk : Apk) (h : Host) (c : ℕ) (cs file a : Str) (q : List Str)
    → HasClearNames apk
    → NoSlashEnds file
    → split_on b'/' file ≡ a ∷ q
    → All IsPlain (a ∷ q)
    → str_eq (first_folder (shift_empty (split_on b'/' (c ∷ cs)))) a ≡ false
    → (listing : Dict ℕ) × (read_object (assets_text apk) ≡ some listing)
      × ((ar : Archive)
          → ((exists_sync h
                (package_at h c cs listing file)
                (Lookups.below h c cs listing file)
                ar).0
              ≡ missing)
            ↔ (packaged (split_on b'/' file) (names_of apk.entries) ≡ false))
unfolding prep_virtual_dirs
exists_sync-packaged apk h c cs file a q names ends split plain first =
    let listing = listed apk (names_of apk.entries) [] in
    let apart =
      apart_from_root h.chain a q (shift_empty (split_on b'/' (c ∷ cs))) _ plain.0 first in
    let l = leads_on-listed (split_on b'/' file) apk (names_of apk.entries) [] in
    (
      listing,
      read_object-assets_text apk names,
      λ ar.
          let (to, from) = exists_sync-missing h c cs listing file a q ends split plain apart ar in
          ((λ e. ground (arith, to e)), λ e. from (l ∙ ground arith)),
    )
