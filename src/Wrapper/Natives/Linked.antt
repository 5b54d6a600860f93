-- ===== src/Wrapper/Natives/Linked.antt =====
-- The methods of objects and the entries of the table that they stand for.
use node_apphost.Base.{
  ℕ, ◌<◌, Str, str_eq, true, List, ◌++◌, Option, none, some, if◌then◌else◌, ◌&&◌, ◌≡◌, refl, ap,
  ◌∙◌, Bool-cases, inl, inr, length, get_elem?, get_elem?-append,
}
use node_apphost.Base.Dict.{lookup, insert, lookup-insert}
use node_apphost.Wrapper.Natives.Script.{length-proxy_script}
use node_apphost.Wrapper.Natives.{Vm, Target, same_target, Natives, declare_proxy}

-- What an object's method stands for: no entry, or one with this callback.
abbrev pub Linked : Natives → Target → Str → Option ℕ → Type 0
Linked n t k none = lookup k (n.proxies t) ≡ none
Linked n t k (some callback) =
    (id : ℕ) × (name : Str) × (lookup k (n.proxies t) ≡ some id)
    × (get_elem? n.callbacks id ≡ some (name, callback))

-- The method `name` of `target` stands for the entry `id`.
abbrev pub declared : Target → Str → ℕ → Natives → Natives
declared target name id n = record n {
  proxies = λ t. if same_target target t then insert name id (n.proxies t) else n.proxies t;
}

abbrev pub appended : List (Str × ℕ) → Natives → Natives
appended cs n = record n { callbacks = n.callbacks ++ cs }

pub appended-Linked :
    (cs : List (Str × ℕ)) (n : Natives) (t : Target) (k : Str) (a : Option ℕ)
    → Linked n t k a
    → Linked (appended cs n) t k a
appended-Linked cs n t k none h = h
appended-Linked cs n t k (some callback) (id, name, p, q) =
    (id, name, p, get_elem?-append n.callbacks cs id (name, callback) q)

other-Linked :
    (n m : Natives) (t : Target) (k : Str) (a : Option ℕ)
    → m.callbacks ≡ n.callbacks
    → lookup k (m.proxies t) ≡ lookup k (n.proxies t)
    → Linked n t k a
    → Linked m t k a
other-Linked n m t k none c e h = e ∙ h
other-Linked n m t k (some callback) c e (id, name, p, q) =
    (id, name, e ∙ p, ap (λ cs. get_elem? cs id) c ∙ q)

lookup-declared :
    (target : Target) (name : Str) (id : ℕ) (n : Natives) (t : Target) (k : Str)
    → lookup k ((declared target name id n).proxies t)
      ≡ (if same_target target t && str_eq name k then some id else lookup k (n.proxies t))
lookup-declared target name id n t k = elim (Bool-cases (same_target target t)) [
  | inl e ↦ rw e (lookup-insert name k id (n.proxies t))
  | inr e ↦ rw e refl
]

pub declared-Linked :
    (target : Target) (name : Str) (id callback : ℕ) (n : Natives)
    → get_elem? n.callbacks id ≡ some (name, callback)
    → (t : Target) (k : Str) (a : Option ℕ) → Linked n t k a
    → Linked
        (declared target name id n)
        t
        k
        (if same_target target t && str_eq name k then some callback else a)
declared-Linked target name id callback n q t k a h =
    let l = lookup-declared target name id n t k in
    elim (Bool-cases (same_target target t && str_eq name k)) [
      | inl e ↦ rw e (id, name, (rw e at l), q)
      | inr e ↦ rw e (other-Linked n (declared target name id n) t k a refl (rw e at l) h)
    ]

-- Names for which the script is one: it compiles, and it fits.
abbrev pub IsMethodName : Vm → Str → Type 0
IsMethodName vm name = (vm.compiles name ≡ true) × (length name < 400)

pub declare_proxy_lem :
    (vm : Vm) (target : Target) (name : Str) (id : ℕ) (n : Natives)
    → IsMethodName vm name
    → id < 1024
    → declare_proxy vm target name id n ≡ some (declared target name id n)
unfolding declare_proxy
declare_proxy_lem vm target name id n (c, h) k = rw (length-proxy_script name id h k, c) refl
