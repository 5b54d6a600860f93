-- ===== src/Assets/Tree/Walks.antt =====
-- The tree of virtual directories as a set of paths: what a walk finds in it.
use node_apphost.Base.{
  ℕ, Str, js, str_eq, str_eq-eq, Bool, true, false, List, [], ◌∷◌, ◌++◌, Option, none, some, ◌≡◌,
  refl, ap, ◌∙◌, arith, Bool-cases, Option-cases, inl, inr, ◌&&◌, ◌||◌, All,
}
use node_apphost.Base.Text.{split_on}
use node_apphost.Mobile.Methods.{is_inherited}
use node_apphost.Assets.Tree.{
  Tree, node, empty, child, or_empty, add_file, add_files, directory, Found, find_in, member_of,
}
use node_apphost.Assets.Tree.Sizes.{child-put_child}

-- The directory object at a path of own keys.
abbrev pub below : Option Tree → (Tree → Option Tree) → Option Tree
below none f = none
below (some t) f = f t

unfoldable pub node_at : List Str → Tree → Option Tree
node_at [] t = some t
node_at (loc ∷ sub) (node n f) = below (child loc f) (node_at sub)

abbrev pub is_some : Option Tree → Bool
is_some none = false
is_some (some t) = true

abbrev pub is_prefix : List Str → List Str → Bool
is_prefix [] q = true
is_prefix (a ∷ p) [] = false
is_prefix (a ∷ p) (b ∷ q) = str_eq b a && is_prefix p q

-- Some listed path is this one, or goes on from it.
abbrev pub leads_on : List Str → List (Str × ℕ) → Bool
leads_on q [] = false
leads_on q ((o, n) ∷ assets) = is_prefix q (split_on b'/' o) || leads_on q assets

or_empty-below :
    (q p : List Str) (o : Option Tree)
    → (is_prefix q p || is_some (node_at q (or_empty o)))
      ≡ (is_prefix q p || is_some (below o (node_at q)))
unfolding node_at or_empty child
or_empty-below [] p o = refl
or_empty-below (a ∷ q) p none = refl
or_empty-below (a ∷ q) p (some t) = refl

-- Adding a file makes the directories on its way, and no other.
pub node_at-add_file :
    (q p : List Str) (n : ℕ) (t : Tree)
    → is_some (node_at q (add_file p n t)) ≡ (is_prefix q p || is_some (node_at q t))
unfolding node_at add_file
node_at-add_file [] p n t = refl
node_at-add_file (a ∷ q) [] n (node s f) = refl
node_at-add_file (a ∷ q) (b ∷ p) n (node s f) =
    rw (child-put_child b a (add_file p n (or_empty (child b f))) f)
      (elim (Bool-cases (str_eq b a)) [
        | inl e ↦ rw e (
            node_at-add_file q p n (or_empty (child b f))
            ∙ or_empty-below q p (child b f)
            ∙ ap (λ x. is_prefix q p || is_some (below (child x f) (node_at q))) (str_eq-eq b a e))
        | inr e ↦ rw e
      ])

-- The tree of a package has the directories that its listed paths lead through.
pub node_at-add_files :
    (q : List Str) (assets : List (Str × ℕ)) (t : Tree)
    → is_some (node_at q (add_files assets t)) ≡ (leads_on q assets || is_some (node_at q t))
unfolding add_files
node_at-add_files q [] t = refl
node_at-add_files q ((o, n) ∷ assets) t = ground (
  arith,
  node_at-add_files q assets (add_file (split_on b'/' o) n t),
  node_at-add_file q (split_on b'/' o) n t,
)

pub node_at-package :
    (a : Str) (q : List Str) (assets : List (Str × ℕ))
    → is_some (node_at (a ∷ q) (add_files assets empty)) ≡ leads_on (a ∷ q) assets
unfolding node_at child
node_at-package a q assets = ground (arith, node_at-add_files (a ∷ q) assets empty)

-- A name that no object has by inheritance, and that is not the key of the size.
abbrev pub IsPlain : Str → Type 0
IsPlain name = (is_inherited name ≡ false) × (str_eq name (js "!s") ≡ false)

abbrev pub found_of : Option Tree → Option Found
found_of none = none
found_of (some t) = some (directory t)

-- On plain names, `findIn` walks along own keys.
pub find_in-node_at :
    (chain : List Str → Bool) (q : List Str) (t : Tree)
    → All IsPlain q
    → find_in chain q t ≡ found_of (node_at q t)
unfolding find_in node_at
find_in-node_at chain [] t h = refl
find_in-node_at chain (a ∷ q) (node n f) ((i, z), hs) = elim (Option-cases (child a f)) [
  | inl e ↦ rw (find_in, e, member_of, z, i)
  | inr (t, e) ↦ rw (find_in, e, member_of) (find_in-node_at chain q t hs)
]

node_at-empty : (rs : List Str) (x : Str) (q : List Str) → node_at (rs ++ x ∷ q) empty ≡ none
unfolding node_at child
node_at-empty [] x q = refl
node_at-empty (r ∷ rs) x q = refl

pub node_at-listed :
    (rs : List Str) (x : Str) (q : List Str) (assets : List (Str × ℕ))
    → is_some (node_at (rs ++ x ∷ q) (add_files assets empty)) ≡ leads_on (rs ++ x ∷ q) assets
node_at-listed rs x q assets =
    ground (arith, node_at-add_files (rs ++ x ∷ q) assets empty, node_at-empty rs x q)
