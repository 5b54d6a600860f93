-- ===== src/Wrapper/Natives/Named.antt =====
-- A call of a native method by its name.
use node_apphost.Base.{
  ℕ, suc, ◌+◌, ◌<◌, ◌≤◌, Str, str_eq, true, false, List, [], ◌∷◌, Option, none, some, if◌then◌else◌,
  ◌&&◌, ◌≡◌, refl, sym, arith, ap, ◌∙◌, length, length-append, All, get_elem?, get_elem?-length,
  get_elem?-bound, ltb,
}
use mathlib.Core.List.{append_assoc, append-nil}
use node_apphost.Base.Options.{◌>>=◌}
use node_apphost.Wrapper.Natives.{
  Vm, Target, process_natives, host_object, same_target, Natives, define_natives,
  set_native_internal, declare_proxy, internal_with, declared_on, Registration, register_at,
  register_natives, set_node_native, set_native_method, take_id,
}
use node_apphost.Wrapper.Natives.Linked.{
  Linked, declared, appended, appended-Linked, declared-Linked, IsMethodName, declare_proxy_lem,
}

-- The last callback that is registered for a method; `acc` is what there was before.
abbrev pub last_callback : Target → Str → Option ℕ → List Registration → Option ℕ
last_callback t k acc [] = acc
last_callback t k acc (r ∷ rs) =
    last_callback t k (if same_target r.target t && str_eq r.method k then some r.callback else acc)
      rs

abbrev pub on_process : List (Str × ℕ) → List Registration
on_process [] = []
on_process ((name, callback) ∷ cs) =
    record { target = process_natives; method = name; callback = callback } ∷ on_process cs

-- The table behind a list of registrations: all methods stand for their last callback.
abbrev pub AllLinked : Natives → (Target → Str → Option ℕ) → Type 0
AllLinked n acc = (t : Target) (k : Str) → Linked n t k (acc t k)

module _ (vm : Vm) where
  abbrev pub HasName : Registration → Type 0
  HasName r = IsMethodName vm r.method

  internal_lem :
      (name : Str) (id : ℕ) (n : Natives)
      → n.running ≡ true
      → IsMethodName vm name
      → id < 1024
      → set_native_internal vm name id n ≡ some (declared process_natives name id n)
  unfolding set_native_internal
  internal_lem name id n r h b =
      ap (λ x. if x then declare_proxy vm process_natives name id n else some n) r
      ∙ declare_proxy_lem vm process_natives name id n h b

  -- The entries of the table from `i` on.
  abbrev pub Rest : ℕ → List (Str × ℕ) → List (Str × ℕ) → Type 0
  Rest i cs table = (j : ℕ) → get_elem? table (i + j) ≡ get_elem? cs j

  Rest-tail :
      (i : ℕ) (c : Str × ℕ) (cs table : List (Str × ℕ))
      → Rest i (c ∷ cs) table
      → Rest (suc i) cs table
  Rest-tail i c cs table h j = let e : suc i + j ≡ i + suc j = omega arith in rw e (h (suc j))

  Rest-head :
      (i : ℕ) (c : Str × ℕ) (cs table : List (Str × ℕ))
      → Rest i (c ∷ cs) table
      → get_elem? table i ≡ some c
  Rest-head i c cs table h = let e : i ≡ i + 0 = omega arith in ap (get_elem? table) e ∙ h 0

  -- The loop of `DEFINE_NATIVES__`.
  pub defined :
      (i : ℕ) (cs : List (Str × ℕ)) (n : Natives) (acc : Target → Str → Option ℕ)
      → n.running ≡ true
      → Rest i cs n.callbacks
      → length n.callbacks ≤ 1024
      → All HasName (on_process cs)
      → AllLinked n acc
      → (m : Natives) × (define_natives vm i cs n ≡ some m)
        × (m.callbacks ≡ n.callbacks)
        × (m.running ≡ true)
        × AllLinked m (λ t k. last_callback t k (acc t k) (on_process cs))
  unfolding define_natives
  defined i [] n acc r e b h l = (n, refl, refl, r, l)
  defined i ((name, callback) ∷ cs) n acc r e b (h, hs) l =
      let q = Rest-head i (name, callback) cs n.callbacks e in
      let d = declared process_natives name i n in
      let (m, p, c, s, k) =
        defined (suc i) cs d
          (λ t k. if same_target process_natives t && str_eq name k then some callback else acc t k)
          r (Rest-tail i (name, callback) cs n.callbacks e) b hs
          (λ t k. declared-Linked process_natives name i callback n q t k (acc t k) (l t k)) in
      (
        m,
        rw
            (internal_lem name i n r h
              (omega (arith, get_elem?-bound n.callbacks i (name, callback) q)))
            p,
        c,
        s,
        k,
      )

  take_id_lem :
      (name : Str) (callback : ℕ) (n : Natives)
      → length n.callbacks < 1024
      → take_id name callback n ≡ some (length n.callbacks, appended ((name, callback) ∷ []) n)
  unfolding take_id
  take_id_lem name callback n b =
      let e : ltb (length n.callbacks) 1024 ≡ true = ground arith in rw e refl

  registered_first :
      (name : Str) (callback : ℕ) (n : Natives)
      → n.running ≡ false
      → length n.callbacks < 1024
      → set_node_native vm name callback n ≡ some (appended ((name, callback) ∷ []) n)
  unfolding set_node_native internal_with set_native_internal
  registered_first name callback n r b =
      let m = appended ((name, callback) ∷ []) n in
      ap (internal_with vm name) (take_id_lem name callback n b)
      ∙ ap (λ x. if x then declare_proxy vm process_natives name (length n.callbacks) m else some m)
          r

  -- Before there is an environment.
  pub registered_early :
      (cs : List (Str × ℕ)) (n : Natives)
      → n.running ≡ false
      → length n.callbacks + length cs ≤ 1024
      → register_natives vm (on_process cs) n ≡ some (appended cs n)
  unfolding register_natives register_at
  registered_early [] n r b =
      ap (λ c. some (record n { callbacks = c })) (sym (append-nil n.callbacks))
  registered_early ((name, callback) ∷ cs) n r b =
      let m = appended ((name, callback) ∷ []) n in
      ap (λ x. x >>= register_natives vm (on_process cs))
        (registered_first name callback n r (omega arith))
      ∙ registered_early cs m r (omega (arith, length-append n.callbacks ((name, callback) ∷ [])))
      ∙ ap (λ c. some (record n { callbacks = c }))
          (append_assoc n.callbacks ((name, callback) ∷ []) cs)

  registered_one :
      (t : Target) (name : Str) (callback : ℕ) (n : Natives)
      → n.running ≡ true
      → length n.callbacks < 1024
      → IsMethodName vm name
      → register_at vm t name callback n
        ≡ some (declared t name (length n.callbacks) (appended ((name, callback) ∷ []) n))
  unfolding register_at set_node_native set_native_method internal_with declared_on
  registered_one process_natives name callback n r b h =
      ap (internal_with vm name) (take_id_lem name callback n b)
      ∙ internal_lem name (length n.callbacks) (appended ((name, callback) ∷ []) n) r h b
  registered_one (host_object o) name callback n r b h =
      let m = appended ((name, callback) ∷ []) n in
      ap (declared_on vm o name) (take_id_lem name callback n b)
      ∙ ap (λ x. if x then declare_proxy vm (host_object o) name (length n.callbacks) m else none) r
      ∙ declare_proxy_lem vm (host_object o) name (length n.callbacks) m h b

  pub registered_later :
      (rs : List Registration) (n : Natives) (acc : Target → Str → Option ℕ)
      → n.running ≡ true
      → length n.callbacks + length rs ≤ 1024
      → All HasName rs
      → AllLinked n acc
      → (m : Natives) × (register_natives vm rs n ≡ some m)
        × (length m.callbacks ≤ 1024)
        × AllLinked m (λ t k. last_callback t k (acc t k) rs)
  unfolding register_natives
  registered_later [] n acc r b h l = (n, refl, omega arith, l)
  registered_later (reg ∷ rs) n acc r b (h, hs) l =
      let n1 = appended ((reg.method, reg.callback) ∷ []) n in
      let d = declared reg.target reg.method (length n.callbacks) n1 in
      let (m, p, c, k) =
        registered_later rs d
          (λ t k.
            if same_target reg.target t && str_eq reg.method k then some reg.callback else acc t k)
          r (omega (arith, length-append n.callbacks ((reg.method, reg.callback) ∷ []))) hs
          (λ t k.
            declared-Linked reg.target reg.method (length n.callbacks) reg.callback n1
              (get_elem?-length n.callbacks [] (reg.method, reg.callback)) t k (acc t k)
              (appended-Linked ((reg.method, reg.callback) ∷ []) n t k (acc t k) (l t k))) in
      (m, rw (registered_one reg.target reg.method reg.callback n r (omega arith) h) p, c, k)
