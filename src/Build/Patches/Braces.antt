-- ===== src/Build/Patches/Braces.antt =====
-- Where the include line goes in node.cc.
use node_apphost.Base.{
  ℕ, zero, suc, ◌-◌, ◌≤◌, ◌<◌, Str, true, false, [], ◌∷◌, ◌++◌, Option, none, some, length, take,
  drop, length-append, ◌≡◌, ◌∙◌, ◌≢◌, ◌↔◌, inl, inr, refl, sym, ap, arith, Bool-cases, Option-cases,
}
use node_apphost.Base.Text.{Lacks}
use node_apphost.Base.Search.{drop-append}
use native.Mathlib.Decide.{ℕ_discrete}
use node_apphost.Build.Patches.{
  char_at, is_brace, with_include, brace_from, include_line, include_wrapper,
}

take-drop : (n : ℕ) (s : Str) → take n s ++ drop n s ≡ s
take-drop zero s = refl
take-drop (suc n) [] = refl
take-drop (suc n) (c ∷ s) = ap (λ x. c ∷ x) (take-drop n s)

is_brace-true : (o : Option ℕ) → is_brace o ≡ true → o ≡ some b'}'
unfolding is_brace
is_brace-true o h = ground arith

is_brace-false : (o : Option ℕ) → is_brace o ≡ false → o ≢ some b'}'
unfolding is_brace
is_brace-false o h e = ground arith

-- No closing brace stands at the positions above `k` up to `n`.
abbrev pub NoBrace : Str → ℕ → ℕ → Type 0
NoBrace s k n = (j : ℕ) → k < j → j ≤ n → char_at s j ≢ some b'}'

NoBrace-suc :
    (s : Str) (k n : ℕ) → NoBrace s k n → char_at s (suc n) ≢ some b'}' → NoBrace s k (suc n)
NoBrace-suc s k n h end j lo hi e = elim (ℕ_discrete j (suc n)) [
  | yes same ↦ end (rw (← same) e)
  | no other ↦ h j lo (omega arith) e
]

-- The position found is that of a closing brace, it is not 0, and no brace stands between it and
-- the start of the search.
brace_from_found :
    (s : Str) (n k : ℕ)
    → brace_from s n ≡ some k
    → (0 < k) × (k ≤ n) × (char_at s k ≡ some b'}') × NoBrace s k n
unfolding brace_from
brace_from_found s zero k e = cc
brace_from_found s (suc n) k e = elim (Bool-cases (is_brace (char_at s (suc n)))) [
  | inl here ↦
      let q : suc n ≡ k = ground arith in
      rw (← q) (omega arith, omega arith, is_brace-true _ here, λ j lo hi. absurd (omega arith))
  | inr not_here ↦
      let (pos, le, at, clear) = brace_from_found s n k (ground arith) in
      (pos, omega arith, at, NoBrace-suc s k n clear (is_brace-false _ not_here))
]

brace_from-none : (s : Str) (n : ℕ) → brace_from s n ≡ none → NoBrace s 0 n
unfolding brace_from
brace_from-none s zero e = λ j lo hi. absurd (omega arith)
brace_from-none s (suc n) e = elim (Bool-cases (is_brace (char_at s (suc n)))) [
  | inl here ↦ absurd (ground arith)
  | inr not_here ↦
      NoBrace-suc s 0 n (brace_from-none s n (ground arith)) (is_brace-false _ not_here)
]

-- What is written to node.cc is the old text with the include line put in directly before its last
-- closing brace.
pub include_wrapper_lem :
    (s t : Str)
    → include_wrapper s ≡ some t
    → (left : Str) × (right : Str) × (k : ℕ) × (t ≡ left ++ (include_line ++ right))
      × (s ≡ left ++ right)
      × (right ≡ drop k s)
      × (0 < k)
      × (char_at s k ≡ some b'}')
      × NoBrace s k (length s - 1)
unfolding include_wrapper
include_wrapper_lem s t e = elim (Option-cases (brace_from s (length s - 1))) [
  | inl missing ↦ let e' : with_include s none ≡ some t = rw missing at e in absurd (cc)
  | inr (k, found) ↦
      let (pos, le, at, clear) = brace_from_found s (length s - 1) k found in
      let e' : with_include s (some k) ≡ some t = rw found at e in
      (take k s, drop k s, k, cc, sym (take-drop k s), refl, pos, at, clear)
]

-- Nothing is written to node.cc exactly when there is no closing brace behind its first code unit.
pub include_wrapper-none : (s : Str) → (include_wrapper s ≡ none) ↔ NoBrace s 0 (length s - 1)
unfolding include_wrapper
include_wrapper-none s = elim (Option-cases (brace_from s (length s - 1))) [
  | inl missing ↦ ((λ e. brace_from-none s (length s - 1) missing), λ clear. rw missing)
  | inr (k, found) ↦
      let (pos, le, at, clear) = brace_from_found s (length s - 1) k found in
      (
        (λ e. let e' : with_include s (some k) ≡ none = rw found at e in absurd (cc)),
        λ empty. absurd (empty k pos le at),
      )
]

-- A brace with none behind it up to the start of the search is found.
brace_from-at :
    (s : Str) (k n : ℕ)
    → 0 < k
    → k ≤ n
    → char_at s k ≡ some b'}'
    → NoBrace s k n
    → brace_from s n ≡ some k
unfolding brace_from is_brace
brace_from-at s k zero pos le at clear = absurd (omega arith)
brace_from-at s k (suc n) pos le at clear = elim (ℕ_discrete k (suc n)) [
  | yes same ↦ rw (← same, at) refl
  | no other ↦
      let miss : is_brace (char_at s (suc n)) ≡ false =
        elim (Bool-cases (is_brace (char_at s (suc n)))) [
          | inl here ↦ absurd (clear (suc n) (omega arith) (omega arith) (is_brace-true _ here))
          | inr not_here ↦ not_here
        ] in
      rw miss (brace_from-at s k n pos (omega arith) at (λ j lo hi. clear j lo (omega arith)))
]

char_at-append :
    (left s : Str) (j : ℕ) → length left ≤ j → char_at (left ++ s) j ≡ char_at s (j - length left)
unfolding char_at
char_at-append [] s j le = let e : j - 0 ≡ j = omega arith in rw e refl
char_at-append (c ∷ left) s zero le = absurd (omega arith)
char_at-append (c ∷ left) s (suc j) le =
    let e : suc j - length (c ∷ left) ≡ j - length left = omega arith in
    rw e (char_at-append left s j (omega arith))

char_at-Lacks : (s : Str) (j : ℕ) → Lacks b'}' s → char_at s j ≢ some b'}'
unfolding char_at
char_at-Lacks [] j l e = cc
char_at-Lacks (c ∷ s) zero l e = l.0 (ground arith)
char_at-Lacks (c ∷ s) (suc j) l e = char_at-Lacks s j (l.1) e

take-append : (left s : Str) → take (length left) (left ++ s) ≡ left
take-append [] s = refl
take-append (c ∷ left) s = ap (λ x. c ∷ x) (take-append left s)

with_include-split :
    (s : Str) (k : ℕ) (left right : Str)
    → take k s ≡ left
    → drop k s ≡ right
    → with_include s (some k) ≡ some (left ++ (include_line ++ right))
unfolding with_include
with_include-split s k left right h1 h2 = rw (h1, h2) refl

-- The include line is put in before the last brace.
pub include_wrapper-last :
    (left right : Str)
    → left ≢ []
    → Lacks b'}' right
    → include_wrapper (left ++ b'}' ∷ right) ≡ some (left ++ (include_line ++ b'}' ∷ right))
unfolding include_wrapper
include_wrapper-last [] right h lacks = absurd (h refl)
include_wrapper-last (c ∷ left) right h lacks =
    let l : Str = c ∷ left in
    let s : Str = l ++ b'}' ∷ right in
    let size = length-append l (b'}' ∷ right) in
    let same : length l - length l ≡ 0 = omega arith in
    let at : char_at s (length l) ≡ some b'}' =
      char_at-append l (b'}' ∷ right) (length l) (omega arith) ∙ ap (char_at (b'}' ∷ right)) same in
    let clear : NoBrace s (length l) (length s - 1) = λ j lo hi e.
      let past : j - length l ≡ suc (j - length l - 1) = omega arith in
      char_at-Lacks right (j - length l - 1) lacks (
        sym (char_at-append l (b'}' ∷ right) j (omega arith) ∙ ap (char_at (b'}' ∷ right)) past)
        ∙ e) in
    rw (brace_from-at s (length l) (length s - 1) (omega arith) (omega (arith, size)) at clear) (
      with_include-split s (length l) l (b'}' ∷ right) (take-append l (b'}' ∷ right))
        (drop-append l (b'}' ∷ right)))
