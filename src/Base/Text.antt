-- ===== src/Base/Text.antt =====
-- JavaScript strings as lists of UTF-16 code units, and the string methods that the sources call.
use Prim.Native.Nat.{ℕ}
use Prim.Native.Char.{code}
use Prim.Native.String.{String}
use mathlib.Core.Path.{◌≡◌, refl}
use mathlib.Core.Logic.{◌≢◌, ◌↔◌}
use mathlib.Core.Bool.{Bool, true, false, ◌&&◌, ◌||◌}
use mathlib.Core.List.{List, [], ◌∷◌, ◌++◌}
use native.Mathlib.Omega.{arith}
use node_apphost.Base.Tests.{◌==◌, if◌then◌else◌, Bool-cases}

abbrev pub Str : Type 0
Str = List ℕ

-- A literal of the source. All literals are ASCII, so a character is one code unit.
unfoldable pub js : String → Str
js String.[] = []
js (String.◌∷◌ c s) = code c ∷ js s

-- `a === b` on strings.
unfoldable pub str_eq : Str → Str → Bool
str_eq [] [] = true
str_eq [] (_ ∷ _) = false
str_eq (_ ∷ _) [] = false
str_eq (a ∷ s) (b ∷ t) = (a == b) && str_eq s t

pub str_eq_refl : (s : Str) → str_eq s s ≡ true
unfolding str_eq
str_eq_refl [] = refl
str_eq_refl (a ∷ s) = ground (arith, str_eq_refl s)

pub str_eq-eq : (s t : Str) → str_eq s t ≡ true → s ≡ t
unfolding str_eq
str_eq-eq [] [] h = refl
str_eq-eq [] (_ ∷ _) h = cc
str_eq-eq (_ ∷ _) [] h = cc
str_eq-eq (a ∷ s) (b ∷ t) h = ground (arith, str_eq-eq s t)

pub str_eq_iff : (s t : Str) → (str_eq s t ≡ true) ↔ (s ≡ t)
str_eq_iff s t = (str_eq-eq s t, λ e. rw e (str_eq_refl t))

pub str_eq-false : (s t : Str) → s ≢ t → str_eq s t ≡ false
str_eq-false s t h = ground (arith, str_eq-eq s t, Bool-cases (str_eq s t))

-- The string is in the list.
unfoldable pub is_in : Str → List Str → Bool
is_in p [] = false
is_in p (q ∷ qs) = str_eq q p || is_in p qs

-- `s.split(d)` for a separator of one code unit.
cons_head : ℕ → List Str → List Str
cons_head c [] = (c ∷ []) ∷ []
cons_head c (s ∷ ss) = (c ∷ s) ∷ ss

unfoldable pub split_on : ℕ → Str → List Str
unfolding cons_head
split_on d [] = [] ∷ []
split_on d (c ∷ s) = let rest = split_on d s in if c == d then [] ∷ rest else cons_head c rest

-- The string does not hold the code unit.
abbrev pub Lacks : ℕ → Str → Type 0
Lacks d [] = Unit
Lacks d (c ∷ s) = (c ≢ d) × Lacks d s

pub split_on-Lacks : (d : ℕ) (s : Str) → Lacks d s → split_on d s ≡ s ∷ []
unfolding split_on
split_on-Lacks d [] h = refl
split_on-Lacks d (c ∷ s) (h, hs) = rw (split_on-Lacks d s hs) (ground arith)

pub split_on-append : (d : ℕ) (s t : Str) → Lacks d s → split_on d (s ++ d ∷ t) ≡ s ∷ split_on d t
unfolding split_on
split_on-append d [] t h = ground arith
split_on-append d (c ∷ s) t (h, hs) = rw (split_on-append d s t hs) (ground arith)
