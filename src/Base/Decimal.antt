-- ===== src/Base/Decimal.antt =====
-- `"" + n` for a natural number: its decimal numeral, with no leading zero.
use Prim.Native.Nat.{ℕ, zero, suc, ◌+◌, ◌-◌, ◌*◌, ◌/◌, ◌%◌, ◌≤◌, ◌<◌}
use Prim.Native.Nat.add
use mathlib.Core.Path.{◌≡◌, refl, sym, ◌∙◌, ap}
use mathlib.Core.Logic.{inl, inr}
use mathlib.Core.List.{[], ◌∷◌, ◌++◌}
use native.Mathlib.Omega.{arith}
use node_apphost.Base.Tests.{ltb, if◌then◌else◌, Bool-cases}
use node_apphost.Base.Lists.{All, All-append, length, length-append}
use node_apphost.Base.Text.{Str}

-- `fuel` bounds the number of digits; every number below it has fewer.
unfoldable pub digits : ℕ → ℕ → Str
digits zero n = []
digits (suc fuel) n =
    let more = digits fuel (n / 10) ++ (n % 10 + 48) ∷ [] in
    if ltb n 10 then (n + 48) ∷ [] else more

unfoldable pub decimal : ℕ → Str
unfolding digits
decimal n = digits (n + 1) n

-- The number that a row of digits stands for.
abbrev pub read_from : ℕ → Str → ℕ
read_from acc [] = acc
read_from acc (d ∷ s) = read_from (acc * 10 + (d - 48)) s

read_from-append :
    (acc d : ℕ) (s : Str) → read_from acc (s ++ d ∷ []) ≡ read_from acc s * 10 + (d - 48)
read_from-append acc d [] = refl
read_from-append acc d (c ∷ s) = read_from-append (acc * 10 + (c - 48)) d s

read-digits : (fuel n : ℕ) → n < fuel → read_from 0 (digits fuel n) ≡ n
unfolding digits
read-digits zero n h = elim h [ ]
read-digits (suc fuel) n h =
    ground
      (arith, read_from-append 0 (n % 10 + 48) (digits fuel (n / 10)), read-digits fuel (n / 10))

pub read-decimal : (n : ℕ) → read_from 0 (decimal n) ≡ n
unfolding decimal
read-decimal n = read-digits (n + 1) n (omega arith)

-- Distinct numbers have distinct numerals.
pub decimal-injective : (m n : ℕ) → decimal m ≡ decimal n → m ≡ n
unfolding decimal
decimal-injective m n e =
    sym (read-digits (m + 1) m (omega arith))
    ∙ ap (read_from 0) e
    ∙ read-digits (n + 1) n (omega arith)

digits-more : (fuel k n : ℕ) → n < fuel → digits (fuel + k) n ≡ digits fuel n
unfolding digits
digits-more zero k n h = elim h [ ]
digits-more (suc fuel) k n h = rw (add.suc fuel k) (ground (arith, digits-more fuel k (n / 10)))

digits-enough : (fuel n : ℕ) → n < fuel → digits fuel n ≡ decimal n
unfolding decimal
digits-enough fuel n h =
    let e : fuel ≡ n + 1 + (fuel - (n + 1)) = omega arith in
    rw e (digits-more (n + 1) (fuel - (n + 1)) n (omega arith))

digits-snoc :
    (fuel m d n : ℕ)
    → 0 < m
    → d < 10
    → n ≡ 10 * m + d
    → digits (suc fuel) n ≡ digits fuel m ++ (d + 48) ∷ []
unfolding digits
digits-snoc fuel m d n h k e =
    let q : n / 10 ≡ m = omega arith in let r : n % 10 ≡ d = omega arith in ground arith

-- A numeral with one more digit.
pub decimal-snoc : (m d : ℕ) → 0 < m → d < 10 → decimal (10 * m + d) ≡ decimal m ++ (d + 48) ∷ []
decimal-snoc m d h k =
    sym (digits-enough (suc (10 * m + d)) (10 * m + d) (omega arith))
    ∙ digits-snoc (10 * m + d) m d (10 * m + d) h k refl
    ∙ ap (λ s. s ++ (d + 48) ∷ []) (digits-enough (10 * m + d) m (omega arith))

abbrev pub IsDigit : ℕ → Type 0
IsDigit c = (48 ≤ c) × (c ≤ 57)

digits-IsDigit : (fuel n : ℕ) → All IsDigit (digits fuel n)
unfolding digits
digits-IsDigit zero n = tt
digits-IsDigit (suc fuel) n =
    let end : All IsDigit ((n % 10 + 48) ∷ []) = omega arith in
    let more : All IsDigit (digits fuel (n / 10) ++ (n % 10 + 48) ∷ []) =
      All-append IsDigit (digits fuel (n / 10)) _ (digits-IsDigit fuel (n / 10)) end in
    elim (Bool-cases (ltb n 10)) [ inl e ↦ rw e (ground arith) | inr e ↦ rw e more ]

pub decimal-IsDigit : (n : ℕ) → All IsDigit (decimal n)
unfolding decimal
decimal-IsDigit n = digits-IsDigit (n + 1) n

length-digits : (fuel n : ℕ) → length (digits fuel n) ≤ 1 + n / 10
unfolding digits
length-digits zero n = omega arith
length-digits (suc fuel) n =
    ground (
      arith,
      length-append (digits fuel (n / 10)) ((n % 10 + 48) ∷ []),
      length-digits fuel (n / 10),
    )

pub length-decimal : (n : ℕ) → length (decimal n) ≤ 1 + n / 10
unfolding decimal
length-decimal n = length-digits (n + 1) n

-- The text does not begin with a digit.
abbrev pub NoDigitFirst : Str → Type 0
NoDigitFirst [] = Unit
NoDigitFirst (c ∷ s) = ¬ (IsDigit c)

-- A row of digits before such a text can be told from it.
pub digits_prefix_unique :
    (a b s t : Str)
    → All IsDigit a
    → All IsDigit b
    → NoDigitFirst s
    → NoDigitFirst t
    → a ++ s ≡ b ++ t
    → (a ≡ b) × (s ≡ t)
digits_prefix_unique [] [] s t ha hb hs ht e = (refl, e)
digits_prefix_unique [] (d ∷ b) [] t ha hb hs ht e = cc
digits_prefix_unique [] (d ∷ b) (c ∷ s) t ha hb hs ht e = absurd (hs (ground arith))
digits_prefix_unique (d ∷ a) [] s [] ha hb hs ht e = cc
digits_prefix_unique (d ∷ a) [] s (c ∷ t) ha hb hs ht e = absurd (ht (ground arith))
digits_prefix_unique (c ∷ a) (d ∷ b) s t ha hb hs ht e =
    let (p, q) = digits_prefix_unique a b s t ha.1 hb.1 hs ht (cc) in (cc, q)
