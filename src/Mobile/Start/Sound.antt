-- ===== src/Mobile/Start/Sound.antt =====
-- The invariant of the device's half: its counters stay in their ranges, a wrapped callback stands
-- under its own name, and the three functions for the life of the device stay registered.
use node_apphost.Base.{
  ℕ, ◌<◌, Str, js, str_eq, str_eq-eq, sym, Bool, true, false, some, if◌then◌else◌, ◌≡◌, inl, inr,
  refl, ◌∙◌, arith, Bool-cases,
}
use node_apphost.Base.Dict.{
  Dict, lookup, insert, remove, lookup-insert, lookup-remove, lookup-insert_other,
}
use node_apphost.Mobile.{
  Value, function, Fn, user, Target, wrapped, plain, Mobile, Err, Res, ok, throw, M, ◌>>=◌, ◌>>◌,
  pure, fail, catch,
}
use node_apphost.Mobile.Events.{callback_name}
use node_apphost.Mobile.Start.{resume_name, pause_name, status_name, state_of}

-- The function `n` of the file's end is registered under the name.
abbrev pub Registered : Str → ℕ → Dict Target → Type 0
Registered name n events = lookup name events ≡ some (plain (function (user n)))

abbrev pub Lifecycle : Dict Target → Type 0
Lifecycle events =
    Registered resume_name 0 events
    × Registered pause_name 1 events
    × Registered status_name 2 events

-- A wrapped callback stands under the name that it forgets when it is called, one of the counter's names.
abbrev pub Named : Dict Target → Type 0
Named events =
    (k cb : Str) (f : Fn)
    → lookup k events ≡ some (wrapped cb f)
    → (n : ℕ) × (k ≡ cb) × (cb ≡ callback_name n)

pub record IsSound (s : Mobile) : Type 0 where
  pub counted : s.event_id < 100000
  pub returns : s.return_reference_counter < 9999
  pub named : Named s.events
  pub lifecycle : Lifecycle s.events

-- The name is none of the three.
abbrev pub IsOther : Str → Type 0
IsOther name =
    (str_eq name resume_name ≡ false)
    × (str_eq name pause_name ≡ false)
    × (str_eq name status_name ≡ false)

pub callback_name-IsOther : (n : ℕ) → IsOther (callback_name n)
unfolding callback_name resume_name pause_name status_name js str_eq
callback_name-IsOther n = (refl, refl, refl)

pub Lifecycle-insert :
    (name : Str) (t : Target) (events : Dict Target)
    → IsOther name
    → Lifecycle events
    → Lifecycle (insert name t events)
Lifecycle-insert name t events (a, b, c) (x, y, z) = (
  lookup-insert_other name resume_name t events a ∙ x,
  lookup-insert_other name pause_name t events b ∙ y,
  lookup-insert_other name status_name t events c ∙ z,
)

lookup-remove_other :
    (k j : Str) (events : Dict Target)
    → str_eq k j ≡ false
    → lookup j (remove k events) ≡ lookup j events
lookup-remove_other k j events h = lookup-remove k j events ∙ rw h

pub Lifecycle-remove :
    (name : Str) (events : Dict Target)
    → IsOther name
    → Lifecycle events
    → Lifecycle (remove name events)
Lifecycle-remove name events (a, b, c) (x, y, z) = (
  lookup-remove_other name resume_name events a ∙ x,
  lookup-remove_other name pause_name events b ∙ y,
  lookup-remove_other name status_name events c ∙ z,
)

pub Named-insert :
    (cb : Str) (n : ℕ) (f : Fn) (events : Dict Target)
    → cb ≡ callback_name n
    → Named events
    → Named (insert cb (wrapped cb f) events)
Named-insert cb n f events e h k cb' f' found =
    let at = lookup-insert cb k (wrapped cb f) events in
    elim (Bool-cases (str_eq cb k)) [
      | inl same ↦
          let q : cb ≡ k = str_eq-eq cb k same in
          let q' : cb ≡ cb' = ground (arith, at, found) in (n, sym q ∙ q', sym q' ∙ e)
      | inr other ↦ h k cb' f' (ground (arith, at, found))
    ]

pub Named-insert-plain :
    (name : Str) (v : Value) (events : Dict Target)
    → Named events
    → Named (insert name (plain v) events)
Named-insert-plain name v events h k cb f found =
    h k cb f (ground (arith, lookup-insert name k (plain v) events, found))

pub Named-remove : (name : Str) (events : Dict Target) → Named events → Named (remove name events)
Named-remove name events h k cb f found =
    h k cb f (ground (arith, lookup-remove name k events, found))

-- A computation that ends, however it ends, in a sound state.
abbrev pub Keeps : {A : Type 0} → M A → Type 0
Keeps m = (s : Mobile) → IsSound s → IsSound (state_of (m s))

Keeps-bind_res :
    {A B : Type 0} (r : Res A) (f : A → M B)
    → IsSound (state_of r)
    → ((a : A) → Keeps (f a))
    → IsSound (state_of (elim r [ ok a s' ↦ f a s' | throw e s' ↦ throw e s' ]))
Keeps-bind_res (ok a s) f h k = k a s h
Keeps-bind_res (throw e s) f h k = h

pub Keeps-bind :
    {A B : Type 0} (m : M A) (f : A → M B) → Keeps m → ((a : A) → Keeps (f a)) → Keeps (m >>= f)
Keeps-bind m f h k s v = Keeps-bind_res (m s) f (h s v) k

pub Keeps-then : {A B : Type 0} (m : M A) (k : M B) → Keeps m → Keeps k → Keeps (m >> k)
Keeps-then m k h hk = Keeps-bind m (λ _. k) h (λ _. hk)

Keeps-catch_res :
    {A : Type 0} (r : Res A) (f : Err → M A)
    → IsSound (state_of r)
    → ((e : Err) → Keeps (f e))
    → IsSound (state_of (elim r [ ok a s' ↦ ok a s' | throw e s' ↦ f e s' ]))
Keeps-catch_res (ok a s) f h k = h
Keeps-catch_res (throw e s) f h k = k e s h

pub Keeps-catch :
    {A : Type 0} (m : M A) (f : Err → M A) → Keeps m → ((e : Err) → Keeps (f e)) → Keeps (catch m f)
Keeps-catch m f h k s v = Keeps-catch_res (m s) f (h s v) k

pub Keeps-pure : {A : Type 0} (a : A) → Keeps (pure a)
Keeps-pure a s v = v

pub Keeps-fail : (A : Type 0) (e : Err) → Keeps (fail {A = A} e)
Keeps-fail A e s v = v

pub IsSound-if :
    {A : Type 0} (b : Bool) (r r' : Res A)
    → IsSound (state_of r)
    → IsSound (state_of r')
    → IsSound (state_of (if b then r else r'))
IsSound-if true r r' h k = h
IsSound-if false r r' h k = k

pub Keeps-if : {A : Type 0} (b : Bool) (m k : M A) → Keeps m → Keeps k → Keeps (if b then m else k)
Keeps-if true m k hm hk = hm
Keeps-if false m k hm hk = hk
