-- ===== src/Assets/Tree/Sizes.antt =====
-- The tree of virtual directories as a map from paths to sizes.
use node_apphost.Base.{
  ℕ, Str, str_eq, str_eq_iff, str_eq-eq, Bool, true, false, List, [], ◌∷◌, Option, none, some,
  if◌then◌else◌, ◌≡◌, refl, ap, ◌∙◌, arith, Bool-cases, Option-cases, inl, inr, ◌&&◌,
}
use node_apphost.Base.Text.{split_on}
use node_apphost.Assets.Tree.{
  Tree, node, Forest, nil, entry, empty, child, put_child, or_empty, add_file, add_files, directory,
  find_in, member_of,
}

-- The size that the tree gives a path of own keys: a path with no entry has none.
unfoldable pub size_at : List Str → Tree → Option ℕ
size_at [] (node n f) = n
size_at (loc ∷ sub) (node n f) = size_at sub (or_empty (child loc f))

abbrev pub paths_eq : List Str → List Str → Bool
paths_eq [] [] = true
paths_eq [] (_ ∷ _) = false
paths_eq (_ ∷ _) [] = false
paths_eq (a ∷ p) (b ∷ q) = str_eq a b && paths_eq p q

pub child-put_child :
    (k j : Str) (t : Tree) (f : Forest)
    → child j (put_child k t f) ≡ (if str_eq k j then some t else child j f)
unfolding child put_child
child-put_child k j t nil = refl
child-put_child k j t (entry i u f) =
    ground (arith, str_eq_iff k j, str_eq_iff i k, str_eq_iff i j, child-put_child k j t f)

pub size_at-empty : (q : List Str) → size_at q empty ≡ none
unfolding size_at child or_empty
size_at-empty [] = refl
size_at-empty (loc ∷ sub) = size_at-empty sub

-- Adding a file sets the size at its path, and at no other.
pub size_at-add_file :
    (p q : List Str) (n : ℕ) (t : Tree)
    → size_at q (add_file p n t) ≡ (if paths_eq p q then some n else size_at q t)
unfolding size_at add_file
size_at-add_file [] [] n (node s f) = refl
size_at-add_file [] (b ∷ q) n (node s f) = refl
size_at-add_file (a ∷ p) [] n (node s f) = refl
size_at-add_file (a ∷ p) (b ∷ q) n (node s f) =
    rw (child-put_child a b (add_file p n (or_empty (child a f))) f)
      (elim (Bool-cases (str_eq a b)) [
        | inl e ↦ rw (e) (
            size_at-add_file p q n (or_empty (child a f))
            ∙ ap (λ x. if paths_eq p q then some n else size_at q (or_empty (child x f)))
                (str_eq-eq a b e))
        | inr e ↦ rw e
      ])

-- The size that the last entry for a path gives it.
abbrev pub last_size : List Str → List (Str × ℕ) → Option ℕ → Option ℕ
last_size q [] before = before
last_size q ((o, n) ∷ folders) before =
    last_size q folders (if paths_eq (split_on b'/' o) q then some n else before)

pub size_at-add_files :
    (q : List Str) (folders : List (Str × ℕ)) (t : Tree)
    → size_at q (add_files folders t) ≡ last_size q folders (size_at q t)
unfolding add_files
size_at-add_files q [] t = refl
size_at-add_files q ((o, n) ∷ folders) t =
    size_at-add_files q folders (add_file (split_on b'/' o) n t)
    ∙ ap (last_size q folders) (size_at-add_file (split_on b'/' o) q n t)

-- A path to which the tree gives a size is found by `findIn`, at a directory object of that size.
pub find_in-size_at :
    (chain : List Str → Bool) (q : List Str) (t : Tree) (n : ℕ)
    → size_at q t ≡ some n
    → (f : Forest) × (find_in chain q t ≡ some (directory (node (some n) f)))
unfolding size_at find_in or_empty
find_in-size_at chain [] (node s f) n h = (f, rw h)
find_in-size_at chain (loc ∷ sub) (node s f) n h = elim (Option-cases (child loc f)) [
  | inl e ↦ let h' : size_at sub empty ≡ some n = rw e at h in cc (size_at-empty sub)
  | inr (t, e) ↦ rw (find_in, e, member_of) (find_in-size_at chain sub t n (rw e at h))
]
