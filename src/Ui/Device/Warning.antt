-- ===== src/Ui/Device/Warning.antt =====
-- The device is always one of the two, and its warning comes to an end.
use node_apphost.Base.{
  ℕ, ◌+◌, ◌≤◌, ◌<◌, Str, true, false, List, [], ◌∷◌, some, ◌≡◌, ◌⊎◌, inl, inr, refl, arith, length,
  Bool-cases, All,
}
use node_apphost.Ui.Device.{device_of, is_unknown, Warner, Globals, tick, ticks, detect}

-- The interval has been cleared, and has shown one message.
abbrev pub IsOver : Warner → Type 0
IsOver w = (w.running ≡ false) × (length w.shown ≡ 1)

-- It runs and has shown nothing yet.
abbrev Counts : ℕ → Warner → Type 0
Counts n w = (w.running ≡ true) × (w.shown ≡ []) × (w.counter ≡ n)

abbrev pub HasConsole : Globals → Type 0
HasConsole x = x.has_console ≡ true

ticks_over : (xs : List Globals) (w : Warner) → w.running ≡ false → ticks xs w ≡ w
unfolding ticks
ticks_over [] w h = refl
ticks_over (x ∷ xs) w h = ground (arith, ticks_over xs w h)

tick-Counts :
    (n : ℕ) (x : Globals) (w : Warner)
    → n ≤ 400
    → HasConsole x
    → Counts n w
    → (IsOver (tick x w)) ⊎ ((n < 400) × Counts (n + 1) (tick x w))
unfolding tick
tick-Counts n x w le con (r, s, c) = ground arith

Counts-IsOver :
    (n : ℕ) (xs : List Globals) (w : Warner)
    → n ≤ 400
    → All HasConsole xs
    → 400 < n + length xs
    → Counts n w
    → IsOver (ticks xs w)
unfolding ticks
Counts-IsOver n [] w le con enough h = absurd (omega arith)
Counts-IsOver n (x ∷ xs) w le (con, cons) enough h = elim (tick-Counts n x w le con h) [
  | inl over ↦ rw (ticks_over xs (tick x w) over.0) over
  | inr (lt, h') ↦ Counts-IsOver (n + 1) xs (tick x w) (omega arith) cons (omega arith) h'
]

-- A device that is neither an iPad, an iPhone nor one with Android counts as Android; and whatever
-- becomes of `log` meanwhile, where `console` is there, the interval has been cleared when its
-- function has run 401 times, and the warning has been shown once.
pub detect_warns :
    (agent : Str) (xs : List Globals) (w : Warner)
    → (detect agent).1 ≡ some w
    → 400 < length xs
    → All HasConsole xs
    → IsOver (ticks xs w) × ((detect agent).0 ≡ record { ios = false; android = true })
unfolding detect is_unknown
detect_warns agent xs w e enough con = elim (Bool-cases (is_unknown (device_of agent))) [
  | inl unknown ↦
      (Counts-IsOver 0 xs w (omega arith) con (omega arith) (ground arith), ground arith)
  | inr known ↦ absurd (ground arith)
]
