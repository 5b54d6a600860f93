-- ===== src/Exec/Ios/Attended.antt =====
-- Whether native code is sure to fetch the commands that wait on iOS.
use node_apphost.Base.{
  ℕ, ◌<◌, ◌==◌, Bool, true, false, List, [], ◌∷◌, ◌++◌, if◌then◌else◌, ◌&&◌, is_empty, length,
  length-append, ◌≡◌, ◌⊎◌, inl, inr, refl, arith, Bool-cases,
}
use node_apphost.Exec.Ios.{
  Command, IosBridge, Device, IosRequest, poke_native, queue_command, poke_if, ios_exec,
  bridge_change, fail_safe_fires, poke_fires, fetch_messages, eval_and_fetch, eval_throws,
}

-- No command waits, or JavaScript runs for native code, which fetches them behind it, or a timer is
-- set that pokes native code again.
unfoldable pub Attended : IosBridge → Type 0
Attended b =
    (is_empty b.command_queue ≡ true)
    ⊎ (0 < b.in_eval)
    ⊎ (0 < length b.live)
    ⊎ (0 < b.pending_pokes)

poke_native-Attended : (d : Device) (b : IosBridge) → Attended (poke_native d b)
unfolding poke_native Attended
poke_native-Attended d b = elim (Bool-cases d.has_body) [
  | inl e ↦ rw e (inr (inr (inl (omega (arith, length-append b.live (b.next_timer ∷ []))))))
  | inr e ↦ rw e (inr (inr (inr (omega arith))))
]

if-Attended :
    (c : Bool) (x y : IosBridge)
    → (c ≡ true → Attended x)
    → (c ≡ false → Attended y)
    → Attended (if c then x else y)
if-Attended true x y h k = h refl
if-Attended false x y h k = k refl

lone :
    (n : ℕ) (q : List Command) (c : Command)
    → is_empty q ≡ true
    → (n == 0) && (length (q ++ c ∷ []) == 1) ≡ false
    → 0 < n
lone n [] c h e = ground arith
lone n (x ∷ q) c h e = cc

-- One more command is attended to if no poke is due for it.
queued-Attended :
    (d : Device) (r : IosRequest) (b : IosBridge)
    → Attended b
    → ((queue_command d r b).in_eval == 0) && (length (queue_command d r b).command_queue == 1)
      ≡ false
    → Attended (queue_command d r b)
unfolding queue_command Attended
queued-Attended d r b (inl h) e = inr (inl (lone b.in_eval b.command_queue _ h e))
queued-Attended d r b (inr h) e = inr h

ios_exec-Attended :
    (d : Device) (r : IosRequest) (b : IosBridge) → Attended b → Attended (ios_exec d r b)
unfolding ios_exec poke_if
ios_exec-Attended d r b h =
    if-Attended
      (((queue_command d r b).in_eval == 0) && (length (queue_command d r b).command_queue == 1)) _
      _ (λ _. poke_native-Attended d (queue_command d r b)) (λ e. queued-Attended d r b h e)

fail_safe_fires-Attended : (d : Device) (n : ℕ) (b : IosBridge) → Attended (fail_safe_fires d n b)
unfolding fail_safe_fires
fail_safe_fires-Attended d n b =
    if-Attended (is_empty b.command_queue) _ _ (λ e. unfold Attended in inl e)
      (λ _.
        if-Attended d.proxy_changed _ _ (λ _. unfold bridge_change Attended in inl refl)
          (λ _. poke_native-Attended d _))

-- What happens to the module: requests, timers, and calls by native code of functions that return.
pub data IosStep (d : Device) : IosBridge → IosBridge → Type 0 where
  requested : (r : IosRequest) → (b : IosBridge) → IosStep d b (ios_exec d r b)
  fail_safe_ran : (n : ℕ) → (b : IosBridge) → IosStep d b (fail_safe_fires d n b)
  poke_ran : (b : IosBridge) → IosStep d b (poke_fires d b)
  fetched : (b : IosBridge) → IosStep d b (fetch_messages d b).1
  evaluated :
      (func : IosBridge → IosBridge) → (b : IosBridge) → IosStep d b (eval_and_fetch d func b).1

pub data IosRuns (d : Device) : IosBridge → IosBridge → Type 0 where
  done : (b : IosBridge) → IosRuns d b b
  next :
      (a : IosBridge)
      → (b : IosBridge) → (c : IosBridge) → IosStep d a b
      → IosRuns d b c
      → IosRuns d a c

IosStep-Attended : (d : Device) (a b : IosBridge) → IosStep d a b → Attended a → Attended b
IosStep-Attended d a _ (requested r _) h = ios_exec-Attended d r a h
IosStep-Attended d a _ (fail_safe_ran n _) h = fail_safe_fires-Attended d n a
IosStep-Attended d a _ (poke_ran _) h = unfold poke_fires in poke_native-Attended d _
IosStep-Attended d a _ (fetched _) h = unfold fetch_messages Attended in inl refl
IosStep-Attended d a _ (evaluated func _) h =
    unfold eval_and_fetch fetch_messages Attended in inl refl

-- After any sequence of requests, timers, fetches and calls of functions that return, whatever these
-- functions do to the module, commands that wait are attended to: native code runs JavaScript and
-- fetches them behind it, or a timer will poke it.
pub IosRuns-Attended : (d : Device) (a b : IosBridge) → IosRuns d a b → Attended a → Attended b
IosRuns-Attended d a _ (done _) h = h
IosRuns-Attended d a c (next _ b _ s rest) h =
    IosRuns-Attended d b c rest (IosStep-Attended d a b s h)

-- With nothing queued, running or set.
abbrev pub idle : IosBridge → IosBridge
idle b = record b { command_queue = []; in_eval = 0; live = []; pending_pokes = 0 }

-- If a function that native code calls makes a request and then throws, its command is stranded, and
-- so is that of the next request: where nothing was queued, running or set before, two commands wait
-- behind it, no poke has been made, and no timer is set.
pub ios_exec_stranded :
    (d : Device) (r r' : IosRequest) (b : IosBridge)
    → let b' = ios_exec d r' (eval_throws (ios_exec d r) (idle b)) in
      (length b'.command_queue ≡ 2)
      × (b'.in_eval ≡ 0)
      × (b'.live ≡ [])
      × (b'.pending_pokes ≡ 0)
      × (b'.pokes ≡ b.pokes)
unfolding ios_exec eval_throws queue_command poke_if
ios_exec_stranded d r r' b = (refl, refl, refl, refl, refl)
