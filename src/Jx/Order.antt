-- ===== src/Jx/Order.antt =====
-- `std::map`: what is found in it, and the order of its keys.
use node_apphost.Base.{
  Str, str_eq, str_eq_iff, str_eq-eq, true, false, List, [], ◌∷◌, some, if◌then◌else◌, ◌≡◌, refl,
  arith, Bool-cases, inl, inr,
}
use node_apphost.Base.Dict.{lookup}
use node_apphost.Jx.{str_lt, assign}

str_lt_total : (j k : Str) → str_eq j k ≡ false → str_lt k j ≡ false → str_lt j k ≡ true
unfolding str_lt str_eq
str_lt_total [] [] e h = cc
str_lt_total [] (c ∷ k) e h = refl
str_lt_total (c ∷ j) [] e h = cc
str_lt_total (a ∷ j) (b ∷ k) e h = ground (arith, str_lt_total j k)

module _ {A : Type 0} where
  pub lookup-assign :
      (k j : Str) (v : A) (m : List (Str × A))
      → lookup j (assign k v m) ≡ (if str_eq k j then some v else lookup j m)
  unfolding lookup assign
  lookup-assign k j v [] = refl
  lookup-assign k j v ((i, w) ∷ m) =
      ground (arith, str_eq_iff k j, str_eq_iff i k, str_eq_iff i j, lookup-assign k j v m)

  -- The keys rise, so that no key stands twice.
  abbrev pub IsBelow : Str → List (Str × A) → Type 0
  IsBelow k [] = Unit
  IsBelow k ((j, w) ∷ m) = str_lt k j ≡ true

  abbrev pub Rises : List (Str × A) → Type 0
  Rises [] = Unit
  Rises ((k, v) ∷ m) = IsBelow k m × Rises m

  assign-IsBelow :
      (i k : Str) (v : A) (m : List (Str × A))
      → IsBelow i m
      → str_lt i k ≡ true
      → IsBelow i (assign k v m)
  unfolding assign
  assign-IsBelow i k v [] h l = l
  assign-IsBelow i k v ((j, w) ∷ m) h l = elim (Bool-cases (str_eq j k)) [
    | inl e ↦ rw e l
    | inr e ↦ elim (Bool-cases (str_lt k j)) [ inl c ↦ rw (e, c) l | inr c ↦ rw (e, c) h ]
  ]

  pub assign-Rises : (k : Str) (v : A) (m : List (Str × A)) → Rises m → Rises (assign k v m)
  unfolding assign
  assign-Rises k v [] h = (tt, tt)
  assign-Rises k v ((j, w) ∷ m) (b, h) = elim (Bool-cases (str_eq j k)) [
    | inl e ↦ let q = str_eq-eq j k e in rw e ((rw q at b), h)
    | inr e ↦ elim (Bool-cases (str_lt k j)) [
      | inl c ↦ rw (e, c) (c, (b, h))
      | inr c ↦ rw (e, c) (assign-IsBelow j k v m b (str_lt_total j k e c), assign-Rises k v m h)
    ]
  ]
