-- ===== src/Exec/Payload.antt =====
-- exec.js: how a message of native code is taken apart. The texts that the code reads as numbers
-- are decimal numerals; for any other text the result is NaN, here `none`.
use mathlib.Core.Option
use node_apphost.Base.{
  ℕ, zero, suc, ◌+◌, ◌-◌, ◌*◌, Str, Bool, true, false, List, [], ◌∷◌, ◌++◌, Option, none, some,
  if◌then◌else◌, ◌==◌, ◌&&◌, ◌||◌, leb, length, take, drop,
}
use node_apphost.Base.Search.{index_of}

-- `+s`.
unfoldable pub number_from : ℕ → Str → Option ℕ
number_from acc [] = some acc
number_from acc (d ∷ s) =
    let more = number_from (acc * 10 + (d - 48)) s in if leb 48 d && leb d 57 then more else none

unfoldable pub to_number : Str → Option ℕ
unfolding number_from
to_number s = number_from 0 s

-- A text of the given length and what follows it: `substr(spaceIdx + 1, msgLen)` and
-- `slice(spaceIdx + msgLen + 1)`. For NaN they are "" and the whole text.
unfoldable pub cut : Option ℕ → Str → Str → Str × Str
cut (some n) body whole = (take n body, drop n body)
cut none body whole = ([], whole)

-- Without a space, `spaceIdx` is -1, so that the length is read from all but the last code unit.
unfoldable pub frame_at : Str → Option ℕ → Str × Str
unfolding cut to_number
frame_at s (some i) = cut (to_number (take i s)) (drop (i + 1) s) s
frame_at s none = cut (to_number (take (length s - 1) s)) s s

-- The first message of a batch, behind its length and a space, and the rest.
unfoldable pub frame : Str → Str × Str
unfolding frame_at index_of
frame s = frame_at s (index_of (b' ' ∷ []) s)

-- What `payload.push` is called with; `number s` is `+s`, `buffer s` and `binary s` are what base64
-- decodes to, `parsed s` is what `JSON.parse` gives.
pub data Item : Type 0 where
  text : Str → Item
  bool : Bool → Item
  null : Item
  number : Str → Item
  buffer : Str → Item
  binary : Str → Item
  parsed : Str → Item

-- A payload, an exception of `JSON.parse` or `atob`, or a loop that does not end.
pub data Decoded : Type 0 where
  items : List Item → Decoded
  throws : Decoded
  endless : Decoded

-- For which texts `JSON.parse` and `atob` return.
pub record Codec : Type 0 where
  pub is_json : Str → Bool
  pub is_base64 : Str → Bool

pub data Kind : Type 0 where
  string true_ false_ null_ numeral array_buffer binary_string multipart json : Kind

-- `payloadKind`.
unfoldable pub kind_of : Str → Kind
kind_of [] = json
kind_of (c ∷ s) =
    if c == b's'
    then string
    else (if c == b't'
        then true_
        else (if c == b'f'
            then false_
            else (if c == b'N'
                then null_
                else (if c == b'n'
                    then numeral
                    else (if c == b'A'
                        then array_buffer
                        else (if c == b'S'
                            then binary_string
                            else (if c == b'M' then multipart else json)))))))

push_if : Bool → Item → Decoded
push_if ok i = if ok then items (i ∷ []) else throws

-- A message that has no parts.
unfoldable pub single : Codec → Kind → Str → Decoded
unfolding push_if
single c string s = items (text (drop 1 s) ∷ [])
single c true_ s = items (bool true ∷ [])
single c false_ s = items (bool false ∷ [])
single c null_ s = items (null ∷ [])
single c numeral s = items (number (drop 1 s) ∷ [])
single c array_buffer s = push_if (c.is_base64 (drop 1 s)) (buffer (drop 1 s))
single c binary_string s = push_if (c.is_base64 (drop 1 s)) (binary (drop 1 s))
single c multipart s = endless
single c json s = push_if (c.is_json s) (parsed s)

-- The payload of the parts behind that of the first part.
unfoldable pub join : Decoded → Decoded → Decoded
join (items is) (items js_) = items (is ++ js_)
join (items is) d = d
join d _ = d

-- A message, or the rest of one in parts.
pub data Mode : Type 0 where
  one many : Mode

unfoldable pub decode : Codec → ℕ → Mode → Str → Decoded
unfolding kind_of single join
decode c zero mode s = endless
decode c (suc n) one s = elim (kind_of s) [
  | multipart ↦ decode c n many (drop 1 s)
  | k ↦ single c k s
]
decode c (suc n) many [] = items []
decode c (suc n) many (x ∷ s) =
    let (part, rest) = frame (x ∷ s) in join (decode c n one part) (decode c n many rest)

-- `buildPayload`. Each call and each round of the loop is for a shorter text, unless a length is not
-- followed by a space, so that the loop may stand still.
unfoldable pub build_payload : Codec → Str → Decoded
unfolding decode
build_payload c s = decode c (length s + 1) one s

-- What a message comes to: `eval`, `cordova.callbackFromNative`, a line on the console, an exception
-- or an endless loop.
pub record Answer : Type 0 where
  pub callback_id : Str
  pub success : Bool
  pub status : Option ℕ
  pub payload : List Item
  pub keep_callback : Bool

pub data Event : Type 0 where
  evaluated : Str → Event
  answered : Answer → Event
  invalid : Str → Event
  failed : Event
  hangs : Event

-- `indexOf(' ', from)`.
unfoldable pub space_from : ℕ → Str → Option ℕ
unfolding index_of
space_from k s = Option.map (λ i. k + i) (index_of (b' ' ∷ []) (drop k s))

-- The index behind a space; behind -1 it is 0.
unfoldable pub behind : Option ℕ → ℕ
behind none = 0
behind (some i) = i + 1

-- `slice(from, to)`, where -1 stands for the last code unit.
unfoldable pub slice : ℕ → Option ℕ → Str → Str
slice k none s = drop k (take (length s - 1) s)
slice k (some i) s = drop k (take i s)

unfoldable pub answer_event : Str → Bool → Option ℕ → Bool → Decoded → Event
answer_event id success status keep (items is) = answered (record {
  callback_id = id;
  success = success;
  status = status;
  payload = is;
  keep_callback = keep;
})
answer_event id success status keep throws = failed
answer_event id success status keep endless = hangs

-- `message.charAt(1) == '1'`.
unfoldable pub keeps : Str → Bool
keeps (_ ∷ k ∷ _) = k == b'1'
keeps _ = false

unfoldable pub process_answer : Codec → Bool → Str → Event
unfolding space_from behind slice answer_event keeps to_number
process_answer c success s =
    let space = space_from 2 s in
    let next_space = space_from (behind space) s in
    answer_event (slice (behind space) next_space s) success (to_number (slice 2 space s)) (keeps s)
      (build_payload c (drop (behind next_space) s))

-- `processMessage`.
unfoldable pub process_message : Codec → Str → Event
unfolding process_answer
process_message c [] = invalid []
process_message c (x ∷ s) =
    if x == b'J'
    then evaluated s
    else (if x == b'S' || x == b'F' then process_answer c (x == b'S') (x ∷ s) else invalid (x ∷ s))
