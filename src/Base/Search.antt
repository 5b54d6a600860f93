-- ===== src/Base/Search.antt =====
-- The searching methods of JavaScript strings: `startsWith`, `indexOf` and `replace` by a text, for
-- the first occurrence and, as a regular expression with the flag `g` does, for every one.
use Prim.Native.Nat.{ℕ, zero, suc, ◌-◌, ◌<◌, ◌≤◌}
use mathlib.Core.Path.{◌≡◌, refl, ap, ◌∙◌}
use mathlib.Core.Logic.{◌≢◌, inl, inr}
use mathlib.Core.Bool.{Bool, true, false, ◌&&◌}
use mathlib.Core.Option
use mathlib.Core.Option.{Option, none, some}
use mathlib.Core.List.{[], ◌∷◌, ◌++◌, append-nil}
use native.Mathlib.Omega.{arith}
use node_apphost.Base.Tests.{◌==◌, if◌then◌else◌, Bool-cases}
use node_apphost.Base.Lists.{length, drop, length-append}
use node_apphost.Base.Text.{Str, Lacks}

unfoldable pub starts_with : Str → Str → Bool
starts_with [] s = true
starts_with (c ∷ p) [] = false
starts_with (c ∷ p) (d ∷ s) = (c == d) && starts_with p s

-- The position of the first occurrence; `none` is JavaScript's -1.
unfoldable pub index_of : Str → Str → Option ℕ
unfolding starts_with
index_of p [] = if starts_with p [] then some 0 else none
index_of p (c ∷ s) =
    let later = index_of p s in if starts_with p (c ∷ s) then some 0 else Option.map suc later

-- The replacement text: `$$` is a dollar, `$&` the match, "$`" what precedes it, `$'` what follows.
expand_pair : ℕ → Str → Str → Str → Option Str
expand_pair d m before after =
    if d == b'$'
    then some (b'$' ∷ [])
    else (if d == b'&'
        then some m
        else (if d == b'`' then some before else (if d == b'\'' then some after else none)))

expand_with : ℕ → Option Str → Str → Str → Str
expand_with c none one two = c ∷ one
expand_with c (some r) one two = r ++ two

unfoldable pub expand : Str → Str → Str → Str → Str
unfolding expand_pair expand_with
expand [] m before after = []
expand (c ∷ []) m before after = c ∷ []
expand (c ∷ d ∷ r) m before after =
    let one = expand (d ∷ r) m before after in
    let two = expand r m before after in
    if c == b'$' then expand_with c (expand_pair d m before after) one two else c ∷ one

replace_from : Str → Str → Str → Str → Str
unfolding expand starts_with
replace_from before p r [] = if starts_with p [] then expand r p before [] else []
replace_from before p r (c ∷ s) =
    let later = replace_from (before ++ c ∷ []) p r s in
    let after = drop (length p) (c ∷ s) in
    if starts_with p (c ∷ s) then expand r p before after ++ after else c ∷ later

-- `s.replace(p, r)` for a text p.
unfoldable pub replace : Str → Str → Str → Str
unfolding replace_from
replace p r s = replace_from [] p r s

-- `skip` counts the code units of a match that are still to be passed over.
replace_all_from : ℕ → Str → Str → Str → Str → Str
unfolding expand starts_with
replace_all_from skip before p r [] = []
replace_all_from (suc skip) before p r (c ∷ s) = replace_all_from skip (before ++ c ∷ []) p r s
replace_all_from zero before p r (c ∷ s) =
    let plain = replace_all_from 0 (before ++ c ∷ []) p r s in
    let passed = replace_all_from (length p - 1) (before ++ c ∷ []) p r s in
    if starts_with p (c ∷ s)
    then expand r p before (drop (length p) (c ∷ s)) ++ passed
    else c ∷ plain

-- `s.replace(/p/g, r)` for a regular expression that stands for one text p, which is not empty.
unfoldable pub replace_all : Str → Str → Str → Str
unfolding replace_all_from
replace_all p r s = replace_all_from 0 [] p r s

pub starts_with-append : (p s : Str) → starts_with p (p ++ s) ≡ true
unfolding starts_with
starts_with-append [] s = refl
starts_with-append (c ∷ p) s = ground (arith, starts_with-append p s)

pub drop-append : (p s : Str) → drop (length p) (p ++ s) ≡ s
drop-append [] s = refl
drop-append (c ∷ p) s = drop-append p s

pub index_of-append : (p s : Str) → index_of p (p ++ s) ≡ some 0
unfolding index_of
index_of-append [] [] = refl
index_of-append [] (c ∷ s) = refl
index_of-append (c ∷ p) s = rw (starts_with-append (c ∷ p) s)

pub expand-Lacks : (r m before after : Str) → Lacks b'$' r → expand r m before after ≡ r
unfolding expand
expand-Lacks [] m before after h = refl
expand-Lacks (c ∷ []) m before after h = refl
expand-Lacks (c ∷ d ∷ r) m before after h = ground (arith, expand-Lacks (d ∷ r) m before after)

-- A prefix that is not empty is replaced.
pub replace-append :
    (c : ℕ) (p r s : Str) → Lacks b'$' r → replace (c ∷ p) r ((c ∷ p) ++ s) ≡ r ++ s
unfolding replace
replace-append c p r s h =
    rw (starts_with-append (c ∷ p) s, drop-append (c ∷ p) s, expand-Lacks r (c ∷ p) [] s h)

-- Where a text does not occur, nothing is replaced.
replace_from-absent : (before p r s : Str) → index_of p s ≡ none → replace_from before p r s ≡ s
unfolding replace_from index_of
replace_from-absent before p r [] h = ground arith
replace_from-absent before p r (c ∷ s) h =
    ground (arith, replace_from-absent (before ++ c ∷ []) p r s)

pub replace-absent : (p r s : Str) → index_of p s ≡ none → replace p r s ≡ s
unfolding replace
replace-absent p r s h = replace_from-absent [] p r s h

starts_with_split : (p s : Str) → starts_with p s ≡ true → s ≡ p ++ drop (length p) s
unfolding starts_with
starts_with_split [] s h = refl
starts_with_split (c ∷ p) [] h = cc
starts_with_split (c ∷ p) (d ∷ s) h = ground (arith, starts_with_split p s)

-- What begins with a text has it as a prefix.
starts_with-prefix : (p s r : Str) → s ≡ p ++ r → starts_with p s ≡ true
starts_with-prefix p s r e = ap (starts_with p) e ∙ starts_with-append p r

-- No other place of `p` in `s` is further to the left.
abbrev pub IsFirst : Str → Str → Str → Type 0
IsFirst p s left = (l r : Str) → s ≡ l ++ (p ++ r) → length left ≤ length l

IsFirst-later :
    (c : ℕ) (p s left : Str)
    → starts_with p (c ∷ s) ≡ false
    → IsFirst p s left
    → IsFirst p (c ∷ s) (c ∷ left)
IsFirst-later c p s left e h [] r q =
    let t : starts_with p (c ∷ s) ≡ true = starts_with-prefix p (c ∷ s) r q in absurd (cc)
IsFirst-later c p s left e h (d ∷ l) r q = omega (arith, h l r (cc))

-- Where a text occurs, its first occurrence gives way to the replacement, if that holds no dollar.
replace_from-occurs :
    (before p r s : Str)
    → Lacks b'$' r
    → index_of p s ≢ none
    → (left : Str) × (right : Str) × (s ≡ left ++ (p ++ right))
      × (replace_from before p r s ≡ left ++ (r ++ right))
      × IsFirst p s left
unfolding replace_from index_of
replace_from-occurs before [] r [] l h =
    ([], [], refl, rw (expand-Lacks r [] before [] l, append-nil r), λ x y q. omega arith)
replace_from-occurs before (x ∷ p) r [] l h = absurd (h (unfold starts_with in refl))
replace_from-occurs before p r (c ∷ s) l h = elim (Bool-cases (starts_with p (c ∷ s))) [
  | inl e ↦ (
    [],
    drop (length p) (c ∷ s),
    starts_with_split p (c ∷ s) e,
    rw (e, expand-Lacks r p before (drop (length p) (c ∷ s)) l),
    λ x y q. omega arith,
  )
  | inr e ↦
      let (left, right, split, replaced, first) =
        replace_from-occurs (before ++ c ∷ []) p r s l (λ q. h (rw (e, q))) in
      (
        c ∷ left,
        right,
        ap (λ x. c ∷ x) split,
        rw e (ap (λ x. c ∷ x) replaced),
        IsFirst-later c p s left e first,
      )
]

pub replace-occurs :
    (p r s : Str)
    → Lacks b'$' r
    → index_of p s ≢ none
    → (left : Str) × (right : Str) × (s ≡ left ++ (p ++ right))
      × (replace p r s ≡ left ++ (r ++ right))
      × IsFirst p s left
unfolding replace
replace-occurs p r s l h = replace_from-occurs [] p r s l h

-- So the length of the text tells whether anything has been replaced by something longer.
pub length-replace :
    (p r s : Str)
    → Lacks b'$' r
    → length p < length r
    → index_of p s ≢ none
    → length (replace p r s) ≢ length s
length-replace p r s l lt h =
    let (left, right, split, replaced, first) = replace-occurs p r s l h in
    λ e. absurd (
      omega (
        arith,
        ap length split,
        ap length replaced,
        e,
        length-append left (p ++ right),
        length-append left (r ++ right),
        length-append p right,
        length-append r right,
      ))
