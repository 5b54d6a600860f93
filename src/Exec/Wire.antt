-- ===== src/Exec/Wire.antt =====
-- The batches of messages that native code writes, by NativeToJsMessageQueue.java.
pub mod Answers
use Prim.Native.Nat.add
use mathlib.Core.List.{append_assoc}
use node_apphost.Base.{
  ℕ, All, zero, suc, ◌+◌, ◌-◌, ◌*◌, ◌<◌, ◌≤◌, Str, Bool, true, false, List, [], ◌∷◌, ◌++◌, some,
  if◌then◌else◌, length, length-append, take, drop, ◌≡◌, refl, sym, ap, ◌==◌, ◌∙◌, arith,
}
use node_apphost.Base.Text.{Lacks}
use node_apphost.Base.Decimal.{decimal, decimal-IsDigit, IsDigit, read_from, read-decimal}
use node_apphost.Base.Search.{index_of, starts_with}
use node_apphost.Exec.Payload.{
  number_from, to_number, cut, frame_at, frame, Item, text, bool, null, number, buffer, binary,
  parsed, items, Codec, Kind, kind_of, single, join, one, many, decode, build_payload, answered,
  answer_event, keeps, space_from, behind, slice, process_answer, process_message,
}

-- Each message behind its length and a space, then a tail.
abbrev pub batch : List Str → Str → Str
batch [] tail = tail
batch (m ∷ ms) tail = decimal (length m) ++ b' ' ∷ (m ++ batch ms tail)

pub index_of-space :
    (a t : Str) → Lacks b' ' a → index_of (b' ' ∷ []) (a ++ b' ' ∷ t) ≡ some (length a)
unfolding index_of starts_with
index_of-space [] t h = ground arith
index_of-space (c ∷ a) t (h, hs) = rw (index_of-space a t hs) (ground arith)

pub take-append : (a t : Str) → take (length a) (a ++ t) ≡ a
take-append [] t = refl
take-append (c ∷ a) t = ap (λ x. c ∷ x) (take-append a t)

pub drop-append : (a t : Str) → drop (length a) (a ++ t) ≡ t
drop-append [] t = refl
drop-append (c ∷ a) t = drop-append a t

pub drop-behind : (a : Str) (x : ℕ) (t : Str) → drop (length a + 1) (a ++ x ∷ t) ≡ t
drop-behind [] x t = refl
drop-behind (c ∷ a) x t = rw (add.suc (length a) 1) (drop-behind a x t)

Digits-Lacks : (s : Str) → All IsDigit s → Lacks b' ' s
Digits-Lacks [] h = tt
Digits-Lacks (c ∷ s) (h, hs) = ((λ e. absurd (omega arith)), Digits-Lacks s hs)

pub decimal-Lacks : (n : ℕ) → Lacks b' ' (decimal n)
decimal-Lacks n = Digits-Lacks (decimal n) (decimal-IsDigit n)

number_from-Digits :
    (acc : ℕ) (s : Str) → All IsDigit s → number_from acc s ≡ some (read_from acc s)
unfolding number_from
number_from-Digits acc [] h = refl
number_from-Digits acc (c ∷ s) (h, hs) =
    rw (number_from-Digits (acc * 10 + (c - 48)) s hs) (ground arith)

pub to_number-decimal : (n : ℕ) → to_number (decimal n) ≡ some n
unfolding to_number
to_number-decimal n = rw (number_from-Digits 0 (decimal n) (decimal-IsDigit n), read-decimal n)

-- The first message of a batch comes off whole, whatever it holds, and the rest is left.
pub frame-batch :
    (m : Str) (ms : List Str) (tail : Str) → frame (batch (m ∷ ms) tail) ≡ (m, batch ms tail)
unfolding frame frame_at cut
frame-batch m ms tail =
    rw
      (
        index_of-space (decimal (length m)) (m ++ batch ms tail) (decimal-Lacks (length m)),
        take-append (decimal (length m)) (b' ' ∷ (m ++ batch ms tail)),
        to_number-decimal (length m),
        drop-behind (decimal (length m)) b' ' (m ++ batch ms tail),
        take-append m (batch ms tail),
        drop-append m (batch ms tail),
      )
      refl
