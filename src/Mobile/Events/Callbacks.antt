-- ===== src/Mobile/Events/Callbacks.antt =====
-- Callbacks of native calls, from their registration to their call.
use node_apphost.Base.{
  ℕ, ◌+◌, ◌%◌, ◌≤◌, ◌<◌, Str, js, str_eq-false, List, [], ◌∷◌, ◌++◌, Option, none, some, length,
  ◌≡◌, refl, arith,
}
use node_apphost.Base.Dict.{
  lookup, insert, remove, lookup-insert, lookup-insert_self, lookup-remove_self,
}
use node_apphost.Base.Decimal.{decimal-injective}
use node_apphost.Mobile.{
  Value, undefined, null, text, function, Fn, null_first, Target, wrapped, Mobile, ok, M, ◌>>=◌,
  ◌>>◌, Engine,
}
use node_apphost.Mobile.Events.{
  split_callback, callback_name, send, register_callback, call_native, apply, items, ping,
  get_from_native,
}

-- The state behind a native call.
abbrev pub sending : Str → List Value × Option Fn → Mobile → Mobile
sending name (params, none) s = record s {
  sent = s.sent ++ (text name ∷ (params ++ text [] ∷ [])) ∷ [];
}
sending name (params, some f) s = record s {
  event_id = (s.event_id + 1) % 100000;
  events = insert (callback_name s.event_id) (wrapped (callback_name s.event_id) f) s.events;
  sent = s.sent ++ (text name ∷ (params ++ text (callback_name s.event_id) ∷ [])) ∷ [];
}

call_native-split :
    (name : Str) (p : List Value × Option Fn) (s : Mobile)
    → (register_callback p.1 >>= λ cb. send (text name ∷ (p.0 ++ text cb ∷ []))) s
      ≡ ok tt (sending name p s)
unfolding register_callback send
call_native-split name (params, none) s = refl
call_native-split name (params, some f) s = refl

pub call_native_lem :
    (name : Str) (args : List Value) (s : Mobile)
    → call_native name args s ≡ ok tt (sending name (split_callback args) s)
unfolding call_native
call_native_lem name args s = call_native-split name (split_callback args) s

append_cancel : (p s t : Str) → p ++ s ≡ p ++ t → s ≡ t
append_cancel [] s t e = e
append_cancel (c ∷ p) s t e = append_cancel p s t (cc)

pub callback_name-injective : (m n : ℕ) → callback_name m ≡ callback_name n → m ≡ n
unfolding callback_name
callback_name-injective m n e =
    decimal-injective m n (append_cancel (js "$$jxcore_callback_") _ _ e)

pub split_callback-append :
    (params : List Value) (f : Fn) → split_callback (params ++ function f ∷ []) ≡ (params, some f)
unfolding split_callback
split_callback-append [] f = refl
split_callback-append (v ∷ []) f = refl
split_callback-append (v ∷ w ∷ vs) f = rw (split_callback-append (w ∷ vs) f)

-- A run of further native calls.
abbrev pub call_all : List (Str × List Value) → M (Unit {0})
call_all [] s = ok tt s
call_all ((name, args) ∷ calls) s = (call_native name args >> call_all calls) s

-- One further native call moves the counter on by at most one and keeps the callback `i`.
sending-keeps :
    (i k : ℕ) (t : Target) (name : Str) (p : List Value × Option Fn) (s : Mobile)
    → i < 100000
    → k + 1 < 100000
    → s.event_id ≡ (i + 1 + k) % 100000
    → lookup (callback_name i) s.events ≡ some t
    → (k' : ℕ) × (k' ≤ k + 1)
      × ((sending name p s).event_id ≡ (i + 1 + k') % 100000)
      × (lookup (callback_name i) (sending name p s).events ≡ some t)
sending-keeps i k t name (params, none) s hi hk he hl = (k, omega arith, he, hl)
sending-keeps i k t name (params, some f) s hi hk he hl = (
  k + 1,
  omega arith,
  omega arith,
  rw
      (
        lookup-insert (callback_name s.event_id) (callback_name i)
            (wrapped (callback_name s.event_id) f) s.events,
        str_eq-false (callback_name s.event_id) (callback_name i)
            (λ e. absurd (omega (arith, callback_name-injective s.event_id i e))),
      )
      hl,
)

kept :
    (i k : ℕ) (t : Target) (calls : List (Str × List Value)) (s : Mobile)
    → i < 100000
    → k + length calls < 100000
    → s.event_id ≡ (i + 1 + k) % 100000
    → lookup (callback_name i) s.events ≡ some t
    → (s' : Mobile) × (call_all calls s ≡ ok tt s') × (lookup (callback_name i) s'.events ≡ some t)
kept i k t [] s hi hk he hl = (s, refl, hl)
kept i k t ((name, args) ∷ calls) s hi hk he hl =
    let (k', le, he', hl') =
      sending-keeps i k t name (split_callback args) s hi (omega arith) he hl in
    rw (call_native_lem name args s, ◌>>=◌, ◌>>◌)
      (kept i k' t calls (sending name (split_callback args) s) hi (omega arith) he' hl')

-- A callback that has been registered for a native call is still there, under the name that was
-- sent, after at most 99,999 further native calls, whatever their parameters are.
pub call_native_pending :
    (name : Str) (params : List Value) (f : Fn) (calls : List (Str × List Value)) (s : Mobile)
    → s.event_id < 100000
    → length calls < 100000
    → (s' : Mobile) × ((call_native name (params ++ function f ∷ []) >> call_all calls) s
        ≡ ok tt s')
      × (lookup (callback_name s.event_id) s'.events ≡ some (wrapped (callback_name s.event_id) f))
call_native_pending name params f calls s hi hk =
    rw
      (
        call_native_lem name (params ++ function f ∷ []) s,
        split_callback-append params f,
        ◌>>=◌,
        ◌>>◌,
      )
      (kept s.event_id 0 _ calls _ hi (omega arith) (omega arith) (lookup-insert_self _ _ s.events))

-- When native code answers by the name that it was sent, the callback runs with the given
-- arguments, once: it has left the table before it runs.
pub ping-call_native :
    (g : Engine) (name : Str) (params vs : List Value) (f : Fn) (s : Mobile)
    → let s' = sending name (params, some f) s in
      (call_native name (params ++ function f ∷ []) s ≡ ok tt s')
      × (ping g (callback_name s.event_id) (items vs) s'
          ≡ apply g f vs (record s' { events = remove (callback_name s.event_id) s'.events }))
unfolding ping
ping-call_native g name params vs f s = (
  rw (call_native_lem name (params ++ function f ∷ []) s, split_callback-append params f),
  rw (
      lookup-insert_self (callback_name s.event_id) (wrapped (callback_name s.event_id) f)
        s.events),
)

-- A second answer by that name finds nothing, if the callback put nothing in its place: it is
-- warned of, and nothing runs.
pub ping_again :
    (g : Engine) (name : Str) (vs ws : List Value) (f : Fn) (s s' : Mobile) (v : Value)
    → lookup name s.events ≡ some (wrapped name f)
    → ping g name (items vs) s ≡ ok v s'
    → ((t : Mobile) (w : Value)
        → apply g f vs t ≡ ok w s'
        → lookup name s'.events ≡ lookup name t.events)
    → ping g name (items ws) s' ≡ ok undefined (record s' { warned = s'.warned ++ name ∷ [] })
unfolding ping
ping_again g name vs ws f s s' v h e k =
    let ran : apply g f vs (record s { events = remove name s.events }) ≡ ok v s' = rw h at e in
    rw (k _ v ran, lookup-remove_self name s.events)

-- What native code answers to a query such as `GetDeviceName` comes to the program's callback
-- behind a null, the place of an error.
pub ping-get_from_native :
    (g : Engine) (name : Str) (f : Fn) (v : Value) (vs : List Value) (s : Mobile)
    → let s' = sending name ([], some (null_first f)) s in
      (get_from_native g name (function f) s ≡ ok tt s')
      × (ping g (callback_name s.event_id) (items (v ∷ vs)) s'
          ≡ apply g f
              (null ∷ v ∷ [])
              (record s' { events = remove (callback_name s.event_id) s'.events }))
unfolding get_from_native apply
ping-get_from_native g name f v vs s = ping-call_native g name [] (v ∷ vs) (null_first f) s
