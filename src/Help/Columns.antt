-- ===== src/Help/Columns.antt =====
-- The columns of the help, and where it breaks off.
use node_apphost.Base.{
  ℕ, zero, suc, ◌-◌, ◌≤◌, ◌<◌, Str, js, Bool, true, false, List, [], ◌∷◌, ◌++◌, leb, drop, length,
  length-append, ◌≡◌, ◌⊎◌, inl, inr, refl, ap, All, arith, Bool-cases,
}
use mathlib.Core.List.{append_assoc}
use node_apphost.Help.{Param, exited, threw, spaces, pad, line, print_help}

-- The option fits the first column.
abbrev pub Fits : Param → Type 0
Fits p = length p.option ≤ 28

-- The line of a row whose text stands in column 32.
abbrev pub aligned : Param → Str
aligned p = line p (spaces (28 - length p.option))

abbrev pub lines : List Param → List Str
lines [] = []
lines (p ∷ ps) = aligned p ∷ lines ps

length-spaces : (n : ℕ) → length (spaces n) ≡ n
unfolding spaces
length-spaces zero = refl
length-spaces (suc n) = ap suc (length-spaces n)

regroup :
    (p : Param) (gap : Str)
    → (p.option ++ b' ' ∷ (gap ++ b':' ∷ b' ' ∷ b' ' ∷ [])) ++ p.text ≡ line p gap
unfolding line js
regroup p gap = simp append_assoc

print_help_short :
    (rejects : Bool) (ps : List Param) (code : ℕ)
    → All Fits ps
    → print_help rejects ps code ≡ exited code (lines ps)
unfolding print_help
print_help_short rejects [] code h = refl
print_help_short rejects (p ∷ ps) code (fits, h) =
    rw (print_help_short rejects ps code h) (ground arith)

print_help-breaks :
    (ps : List Param) (p : Param) (rest : List Param) (code : ℕ)
    → All Fits ps
    → 28 < length p.option
    → print_help true (ps ++ p ∷ rest) code ≡ threw (lines ps)
unfolding print_help
print_help-breaks [] p rest code h long = ground arith
print_help-breaks (q ∷ ps) p rest code (fits, h) long =
    rw (print_help-breaks ps p rest code h long) (ground arith)

drop-append : (n : ℕ) (s t : Str) → length s ≡ n → drop n (s ++ t) ≡ t
drop-append zero [] t h = refl
drop-append zero (c ∷ s) t h = absurd (omega arith)
drop-append (suc n) [] t h = absurd (omega arith)
drop-append (suc n) (c ∷ s) t h = drop-append n s t (omega arith)

-- Each line has its row's text in column 32.
abbrev pub InColumns : List Param → List Str → Type 0
InColumns [] [] = Unit
InColumns (p ∷ ps) (l ∷ ls) = (drop 32 l ≡ p.text) × InColumns ps ls
InColumns _ _ = ⊥

text-aligned : (p : Param) → Fits p → drop 32 (aligned p) ≡ p.text
unfolding line js
text-aligned p h =
    let gap = spaces (28 - length p.option) in
    let front = p.option ++ b' ' ∷ (gap ++ b':' ∷ b' ' ∷ b' ' ∷ []) in
    rw (← regroup p gap) (
      drop-append 32 front p.text (
        omega (
          arith,
          length-append p.option (b' ' ∷ (gap ++ b':' ∷ b' ' ∷ b' ' ∷ [])),
          length-append gap (b':' ∷ b' ' ∷ b' ' ∷ []),
          length-spaces (28 - length p.option),
        )))

InColumns-lines : (ps : List Param) → All Fits ps → InColumns ps (lines ps)
InColumns-lines [] h = tt
InColumns-lines (p ∷ ps) (fits, h) = (text-aligned p fits, InColumns-lines ps h)

-- The first option that is too long.
first_long :
    (ps : List Param)
    → All Fits ps
      ⊎ ((pre : List Param) × (p : Param) × (rest : List Param) × (ps ≡ pre ++ p ∷ rest)
          × All Fits pre
          × (28 < length p.option))
first_long [] = inl tt
first_long (p ∷ ps) = elim (Bool-cases (leb (length p.option) 28)) [
  | inr long ↦ inr ([], p, ps, refl, tt, ground arith)
  | inl short ↦ elim (first_long ps) [
    | inl h ↦ inl (ground arith, h)
    | inr (pre, q, rest, e, h, long) ↦ inr (p ∷ pre, q, rest, ap (◌∷◌ p) e, (ground arith, h), long)
  ]
]

print_help-lenient :
    (ps : List Param) (code : ℕ)
    → (ls : List Str) × (print_help false ps code ≡ exited code ls) × (length ls ≡ length ps)
unfolding print_help pad
print_help-lenient [] code = ([], refl, refl)
print_help-lenient (p ∷ ps) code =
    let (ls, e, n) = print_help-lenient ps code in
    elim (Bool-cases (leb (length p.option) 28)) [
      | inl short ↦ (aligned p ∷ ls, rw (short, e), ap suc n)
      | inr long ↦ (line p [] ∷ ls, rw (long, e), ap suc n)
    ]

-- If no option is longer than 28 characters, the help prints a line for each row, with the texts
-- in one column, and exits with the given code. Otherwise, where `new Buffer` rejects a negative
-- length, it prints the rows in front of the first longer option and throws; and where it does not,
-- all rows are printed and the process exits with the code.
pub print_help_lem :
    (ps : List Param) (code : ℕ)
    → (((rejects : Bool) → print_help rejects ps code ≡ exited code (lines ps))
        × InColumns ps (lines ps))
      ⊎ ((pre : List Param) × (p : Param) × (rest : List Param) × (ps ≡ pre ++ p ∷ rest)
          × (28 < length p.option)
          × (print_help true ps code ≡ threw (lines pre))
          × InColumns pre (lines pre)
          × ((ls : List Str) × (print_help false ps code ≡ exited code ls)
              × (length ls ≡ length ps)))
print_help_lem ps code = elim (first_long ps) [
  | inl h ↦ inl ((λ r. print_help_short r ps code h), InColumns-lines ps h)
  | inr (pre, p, rest, e, h, long) ↦ inr (
    pre,
    p,
    rest,
    e,
    long,
    rw e (print_help-breaks pre p rest code h long),
    InColumns-lines pre h,
    print_help-lenient ps code,
  )
]
