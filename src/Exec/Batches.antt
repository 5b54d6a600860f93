-- ===== src/Exec/Batches.antt =====
-- Batches of messages of native code, turn by turn.
use node_apphost.Base.{
  ℕ, zero, suc, Str, All, str_eq, false, List, [], ◌∷◌, ◌++◌, if◌then◌else◌, is_empty, length, ◌≡◌,
  ◌≢◌, refl, ap, ◌∙◌, arith, str_eq-false,
}
use mathlib.Core.List.{append_assoc, append-nil}
use node_apphost.Base.Decimal.{decimal, decimal-IsDigit, IsDigit}
use node_apphost.Exec.Payload.{Event, hangs, evaluated, answered, invalid, failed, process_message}
use node_apphost.Exec.Bridge.{
  Bridge, Native, process, finish, settle, handle, pop_from, process_queue, process_messages,
  run_tick, next_tick,
}
use node_apphost.Exec.Wire.{batch, frame-batch}

not_star : (a t : Str) → All IsDigit a → str_eq (a ++ b' ' ∷ t) (b'*' ∷ []) ≡ false
unfolding str_eq
not_star [] t h = ground arith
not_star (c ∷ a) t (h, hs) = ground (arith, h)

not_empty : (a : Str) (x : ℕ) (t : Str) → is_empty (a ++ x ∷ t) ≡ false
not_empty [] x t = refl
not_empty (c ∷ a) x t = refl

-- One message of a batch: it is handled, and the rest is put back.
abbrev rest_queue : List Str → List Str
rest_queue [] = []
rest_queue (m ∷ ms) = batch (m ∷ ms) [] ∷ []

pop_from-batch : (m : Str) (ms : List Str) → pop_from (batch (m ∷ ms) []) [] ≡ (m, rest_queue ms)
unfolding pop_from
pop_from-batch m [] =
    rw (not_star (decimal (length m)) (m ++ []) (decimal-IsDigit (length m)), frame-batch m [] [])
      refl
pop_from-batch m (n ∷ ms) =
    rw
      (
        not_star (decimal (length m)) (m ++ batch (n ∷ ms) []) (decimal-IsDigit (length m)),
        frame-batch m (n ∷ ms) [],
        not_empty (decimal (length n)) b' ' (n ++ batch ms []),
      )
      refl

-- A message is no `*`, and to handle it ends.
abbrev pub Plain : Native → Str → Type 0
Plain w m = (m ≢ b'*' ∷ []) × (process_message w.codec m ≢ hangs)

settle-quiet :
    (w : Native) (e : Event) (b : Bridge)
    → ((e : Event) (b : Bridge) → w.react e b ≡ b)
    → e ≢ hangs
    → settle w e b ≡ finish b
unfolding settle
settle-quiet w hangs b q h = absurd (h refl)
settle-quiet w (evaluated s) b q h = ap finish (q (evaluated s) b)
settle-quiet w (answered a) b q h = ap finish (q (answered a) b)
settle-quiet w (invalid s) b q h = ap finish (q (invalid s) b)
settle-quiet w failed b q h = ap finish (q failed b)

-- A queue of messages with one turn due for it, behind the given events.
abbrev pub due : Bridge → List Str → List Event → Bridge
due b messages es = record b {
  messages = messages;
  is_processing = false;
  ticks = if is_empty messages then [] else process ∷ [];
  events = es;
}

one_turn :
    (w : Native) (b : Bridge) (es : List Event) (m : Str) (ms : List Str)
    → ((e : Event) (b : Bridge) → w.react e b ≡ b)
    → Plain w m
    → next_tick w (due b (batch (m ∷ ms) [] ∷ []) es)
      ≡ due b (rest_queue ms) (es ++ process_message w.codec m ∷ [])
unfolding next_tick run_tick process_messages process_queue handle
one_turn w b es m ms q (h, k) =
    rw
      (
        pop_from-batch m ms,
        str_eq-false m (b'*' ∷ []) h,
        settle-quiet w (process_message w.codec m) _ q k,
      )
      (unfold finish in refl)

abbrev pub turns : ℕ → Native → Bridge → Bridge
turns zero w b = b
turns (suc n) w b = turns n w (next_tick w b)

-- What the messages come to, in their order.
abbrev pub outcomes : Native → List Str → List Event
outcomes w [] = []
outcomes w (m ∷ ms) = process_message w.codec m ∷ outcomes w ms

abbrev pub AllPlain : Native → List Str → Type 0
AllPlain w [] = Unit
AllPlain w (m ∷ ms) = Plain w m × AllPlain w ms

handled :
    (w : Native) (b : Bridge) (es : List Event) (ms : List Str)
    → ((e : Event) (b : Bridge) → w.react e b ≡ b)
    → AllPlain w ms
    → turns (length ms) w (due b (rest_queue ms) es) ≡ due b [] (es ++ outcomes w ms)
handled w b es [] q h = rw (append-nil es) refl
handled w b es (m ∷ ms) q (h, hs) =
    ap (turns (length ms) w) (one_turn w b es m ms q h)
    ∙ handled w b (es ++ process_message w.codec m ∷ []) ms q hs
    ∙ ap (due b []) (append_assoc es (process_message w.codec m ∷ []) (outcomes w ms))

-- A batch of messages that native code sends at once is handled in as many turns of the event loop
-- as it has messages: each message once, in their order, and then nothing is queued and nothing
-- waits. The messages are no `*`, their handling ends, and callbacks leave the module alone.
pub messages_in_order :
    (w : Native) (b : Bridge) (m : Str) (ms : List Str)
    → ((e : Event) (b : Bridge) → w.react e b ≡ b)
    → AllPlain w (m ∷ ms)
    → turns (length (m ∷ ms)) w (due b (batch (m ∷ ms) [] ∷ []) b.events)
      ≡ due b [] (b.events ++ outcomes w (m ∷ ms))
messages_in_order w b m ms q h = handled w b b.events (m ∷ ms) q h
