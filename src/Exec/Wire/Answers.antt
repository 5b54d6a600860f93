-- ===== src/Exec/Wire/Answers.antt =====
-- The answers that native code writes, by NativeToJsMessageQueue.java, and how exec.js reads them.
use Prim.Native.Nat.add
use mathlib.Core.List.{append_assoc}
use node_apphost.Base.{
  ℕ, zero, suc, ◌+◌, ◌<◌, ◌≤◌, Str, Bool, true, false, List, [], ◌∷◌, ◌++◌, some, if◌then◌else◌,
  length, length-append, take, drop, ◌≡◌, refl, sym, ap, ◌==◌, ◌∙◌, arith,
}
use node_apphost.Base.Text.{Lacks}
use node_apphost.Base.Decimal.{decimal}
use node_apphost.Exec.Payload.{
  frame, Item, text, bool, null, number, buffer, binary, parsed, items, Codec, Kind, kind_of,
  single, join, one, many, decode, build_payload, answered, answer_event, keeps, space_from, behind,
  slice, process_answer, process_message,
}
use node_apphost.Exec.Wire.{
  batch, frame-batch, take-append, drop-append, drop-behind, index_of-space, decimal-Lacks,
  to_number-decimal,
}

-- What `encodeAsMessageHelper` writes for a value.
abbrev pub written : Item → Str
written (text s) = b's' ∷ s
written (bool true) = b't' ∷ []
written (bool false) = b'f' ∷ []
written null = b'N' ∷ []
written (number s) = b'n' ∷ s
written (buffer s) = b'A' ∷ s
written (binary s) = b'S' ∷ s
written (parsed s) = s

-- The base64 texts are valid; the JSON texts are valid and begin as JSON that is no simple value does.
abbrev pub IsValid : Codec → Item → Type 0
IsValid c (buffer s) = c.is_base64 s ≡ true
IsValid c (binary s) = c.is_base64 s ≡ true
IsValid c (parsed s) = (c.is_json s ≡ true) × (kind_of s ≡ Kind.json)
IsValid c _ = Unit

decode-written :
    (c : Codec) (n : ℕ) (i : Item) → IsValid c i → decode c (suc n) one (written i) ≡ items (i ∷ [])
unfolding decode kind_of single
decode-written c n (text s) h = refl
decode-written c n (bool true) h = refl
decode-written c n (bool false) h = refl
decode-written c n null h = refl
decode-written c n (number s) h = refl
decode-written c n (buffer s) h = rw h
decode-written c n (binary s) h = rw h
decode-written c n (parsed s) h = rw (decode, h.1, single, h.0)

abbrev pub writings : List Item → List Str
writings [] = []
writings (i ∷ is) = written i ∷ writings is

abbrev pub AllValid : Codec → List Item → Type 0
AllValid c [] = Unit
AllValid c (i ∷ is) = IsValid c i × AllValid c is

decode_many :
    (c : Codec) (n : ℕ) (a : Str) (x : ℕ) (t : Str)
    → let s = a ++ x ∷ t in
      decode c (suc n) many s ≡ join (decode c n one (frame s).0) (decode c n many (frame s).1)
unfolding decode
decode_many c n [] x t = refl
decode_many c n (y ∷ a) x t = refl

decode-batch :
    (c : Codec) (n : ℕ) (is : List Item)
    → AllValid c is
    → length is < n
    → decode c n many (batch (writings is) []) ≡ items is
unfolding decode
decode-batch c zero is h k = absurd (omega arith)
decode-batch c (suc n) [] h k = refl
decode-batch c (suc zero) (i ∷ is) h k = absurd (omega arith)
decode-batch c (suc (suc n)) (i ∷ is) h k =
    decode_many c (suc n) (decimal (length (written i))) b' ' (written i ++ batch (writings is) [])
    ∙ (rw
        (
          frame-batch (written i) (writings is) [],
          decode-written c n i h.0,
          decode-batch c (suc n) is h.1 (omega (arith, k)),
        )
        (unfold join in refl))

batch_longer : (is : List Item) → length is ≤ length (batch (writings is) [])
batch_longer [] = omega arith
batch_longer (i ∷ is) = omega (
  arith,
  length-append (decimal (length (written i))) (b' ' ∷ (written i ++ batch (writings is) [])),
  length-append (written i) (batch (writings is) []),
  batch_longer is,
)

-- What `encodeAsMessageHelper` writes for a value, or behind an M for several.
abbrev pub payload_text : List Item → Str
payload_text (i ∷ []) = written i
payload_text is = b'M' ∷ batch (writings is) []

build_payload-M :
    (c : Codec) (is : List Item)
    → AllValid c is
    → build_payload c (b'M' ∷ batch (writings is) []) ≡ items is
unfolding build_payload decode kind_of
build_payload-M c is h =
    let e : length (batch (writings is) []) + 1 ≡ suc (length (batch (writings is) [])) =
      omega arith in
    rw (add.suc (length (batch (writings is) [])) 1, e)
      (decode-batch c (suc (length (batch (writings is) []))) is h (omega (arith, batch_longer is)))

-- `buildPayload` reads what native code has written: the same values in the same order.
pub build_payload-written :
    (c : Codec) (is : List Item) → AllValid c is → build_payload c (payload_text is) ≡ items is
unfolding build_payload
build_payload-written c [] h = build_payload-M c [] h
build_payload-written c (i ∷ []) h =
    let e : length (written i) + 1 ≡ suc (length (written i)) = omega arith in
    rw e (decode-written c (length (written i)) i h.0)
build_payload-written c (i ∷ j ∷ is) h = build_payload-M c (i ∷ j ∷ is) h

-- The text of an answer: its outcome, whether the callback is kept, its status, the callback's id,
-- and the payload.
abbrev pub answer_text : Bool → Bool → ℕ → Str → List Item → Str
answer_text success keep status id is =
    (if success then b'S' else b'F')
    ∷ (if keep then b'1' else b'0')
    ∷ (decimal status ++ b' ' ∷ (id ++ b' ' ∷ payload_text is))

take-more : (a t : Str) (n : ℕ) → take (length a + n) (a ++ t) ≡ a ++ take n t
take-more [] t n = let z : 0 + n ≡ n = omega arith in rw z refl
take-more (c ∷ a) t n = rw (add.suc (length a) n) (ap (λ x. c ∷ x) (take-more a t n))

drop-more : (a t : Str) (n : ℕ) → drop (length a + n) (a ++ t) ≡ drop n t
drop-more [] t n = let z : 0 + n ≡ n = omega arith in rw z refl
drop-more (c ∷ a) t n = rw (add.suc (length a) n) (drop-more a t n)

regroup : (m n : ℕ) → m + n + 1 ≡ m + (n + 1)
regroup m n = omega arith

-- Behind a text `a`, a text without a space is found whole, and what follows the space.
field_at :
    (a b t s : Str) (n : ℕ)
    → s ≡ a ++ (b ++ b' ' ∷ t)
    → n ≡ length a
    → Lacks b' ' b
    → (space_from n s ≡ some (n + length b))
      × (slice n (some (n + length b)) s ≡ b)
      × (drop (behind (some (n + length b))) s ≡ t)
unfolding space_from slice behind
field_at a b t s n e l h = (
  rw (l, e, drop-append a (b ++ b' ' ∷ t), index_of-space b t h),
  rw (l, e, take-more a (b ++ b' ' ∷ t) (length b), drop-append a (take (length b) (b ++ b' ' ∷ t)))
      (take-append b (b' ' ∷ t)),
  rw (l, e, regroup (length a) (length b), drop-more a (b ++ b' ' ∷ t) (length b + 1))
      (drop-behind b b' ' t),
)

process_answer-text :
    (c : Codec) (success : Bool) (x k status : ℕ) (id p : Str)
    → Lacks b' ' id
    → process_answer c success (x ∷ k ∷ (decimal status ++ b' ' ∷ (id ++ b' ' ∷ p)))
      ≡ answer_event id success (some status) (k == b'1') (build_payload c p)
unfolding process_answer keeps
process_answer-text c success x k status id p l =
    let d = decimal status in
    let s = x ∷ k ∷ (d ++ b' ' ∷ (id ++ b' ' ∷ p)) in
    let a = x ∷ k ∷ (d ++ b' ' ∷ []) in
    let (s1, s2, s3) =
      field_at (x ∷ k ∷ []) d (id ++ b' ' ∷ p) s 2 refl refl (decimal-Lacks status) in
    let e : s ≡ a ++ (id ++ b' ' ∷ p) =
      ap (λ y. x ∷ k ∷ y) (sym (append_assoc d (b' ' ∷ []) (id ++ b' ' ∷ p))) in
    let n : behind (some (2 + length d)) ≡ length a =
      unfold behind in omega (arith, length-append d (b' ' ∷ [])) in
    let (t1, t2, t3) = field_at a id p s (behind (some (2 + length d))) e n l in
    rw (s1, t1, t2, s2, t3, to_number-decimal status)

-- `processMessage` reads an answer as it was written, if the callback's id holds no space: the
-- callback of that id is answered with that outcome, that status and those values.
pub process_message-answer :
    (c : Codec) (success keep : Bool) (status : ℕ) (id : Str) (is : List Item)
    → Lacks b' ' id
    → AllValid c is
    → process_message c (answer_text success keep status id is)
      ≡ answered (record {
        callback_id = id;
        success = success;
        status = some status;
        payload = is;
        keep_callback = keep;
      })
unfolding process_message answer_event
process_message-answer c true true status id is l h = rw (
  process_answer-text c true b'S' b'1' status id (payload_text is) l,
  build_payload-written c is h,
)
process_message-answer c true false status id is l h = rw (
  process_answer-text c true b'S' b'0' status id (payload_text is) l,
  build_payload-written c is h,
)
process_message-answer c false true status id is l h = rw (
  process_answer-text c false b'F' b'1' status id (payload_text is) l,
  build_payload-written c is h,
)
process_message-answer c false false status id is l h = rw (
  process_answer-text c false b'F' b'0' status id (payload_text is) l,
  build_payload-written c is h,
)
