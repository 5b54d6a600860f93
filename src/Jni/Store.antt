-- ===== src/Jni/Store.antt =====
-- The values that wait for Java: which numbers they have, and how long they stay.
use node_apphost.Base.{
  ℕ, suc, ◌+◌, ◌<◌, true, false, List, [], ◌∷◌, none, some, ◌≡◌, ◌≢◌, refl, arith, ap, ◌∙◌,
}
use node_apphost.Wrapper.{JsValue}
use node_apphost.Jni.{Stored, find, erase, store_value, remove_stored, released}

pub find-erase_other :
    (id j : ℕ) (vs : List (ℕ × JsValue)) → id ≢ j → find id (erase j vs) ≡ find id vs
unfolding find erase
find-erase_other id j [] h = refl
find-erase_other id j ((n, v) ∷ vs) h = ground (arith, find-erase_other id j vs h)

find-erase_self : (id : ℕ) (vs : List (ℕ × JsValue)) → find id (erase id vs) ≡ none
unfolding find erase
find-erase_self id [] = refl
find-erase_self id ((n, v) ∷ vs) = ground (arith, find-erase_self id vs)

pub find-store_value :
    (v : JsValue) (s : Stored)
    → find s.counter (store_value v s).1.values ≡ some (record v { persistent = true })
unfolding store_value find
find-store_value v s = ground arith

pub find-store_value_other :
    (v : JsValue) (s : Stored) (id : ℕ)
    → id ≢ s.counter
    → find id (store_value v s).1.values ≡ find id s.values
unfolding store_value find
find-store_value_other v s id h = ground (arith, find-erase_other id s.counter s.values h)

-- What the engine's thread and Java do to the map.
pub data StoreOp : Type 0 where
  stores : JsValue → StoreOp
  takes : ℕ → StoreOp

unfoldable pub run_store : List StoreOp → Stored → Stored
run_store [] s = s
run_store (stores v ∷ ops) s = run_store ops (store_value v s).1
run_store (takes id ∷ ops) s = run_store ops (remove_stored id s).1

abbrev pub count_stores : List StoreOp → ℕ
count_stores [] = 0
count_stores (stores v ∷ ops) = suc (count_stores ops)
count_stores (takes id ∷ ops) = count_stores ops

abbrev pub NotTaken : ℕ → List StoreOp → Type 0
NotTaken id [] = Unit
NotTaken id (stores v ∷ ops) = NotTaken id ops
NotTaken id (takes j ∷ ops) = (id ≢ j) × NotTaken id ops

kept :
    (id : ℕ) (w : JsValue) (ops : List StoreOp) (s : Stored)
    → find id s.values ≡ some w
    → id < s.counter
    → s.counter + count_stores ops < 2147483646
    → NotTaken id ops
    → find id (run_store ops s).values ≡ some w
unfolding run_store
kept id w [] s h l b t = h
kept id w (stores v ∷ ops) s h l b t =
    let e : (store_value v s).1.counter ≡ suc s.counter = unfold store_value in omega arith in
    kept id w ops (store_value v s).1
      (find-store_value_other v s id (λ q. absurd (omega arith)) ∙ h) (omega arith) (omega arith) t
kept id w (takes j ∷ ops) s h l b (d, t) =
    kept id w ops (remove_stored j s).1
      (unfold remove_stored in find-erase_other id j s.values d ∙ h) (unfold remove_stored in l)
      (unfold remove_stored in b) t

pub remove_stored-some :
    (id : ℕ) (w : JsValue) (s : Stored)
    → find id s.values ≡ some w
    → ((remove_stored id s).0 ≡ some (record w { persistent = false }))
      × (find id (remove_stored id s).1.values ≡ none)
unfolding remove_stored
remove_stored-some id w s h = (ap released h, find-erase_self id s.values)

-- A value that is stored for Java can be taken under its number after whatever else has been stored
-- and taken, as long as the counter does not come round and the number has not been taken; then
-- it is no longer there.
pub store_value-remove_stored :
    (v : JsValue) (ops : List StoreOp) (s : Stored)
    → suc s.counter + count_stores ops < 2147483646
    → NotTaken s.counter ops
    → let s' = run_store ops (store_value v s).1 in
      ((remove_stored s.counter s').0 ≡ some (record v { persistent = false }))
      × (find s.counter (remove_stored s.counter s').1.values ≡ none)
store_value-remove_stored v ops s b t =
    let s1 = (store_value v s).1 in
    let e : s1.counter ≡ suc s.counter = unfold store_value in omega arith in
    remove_stored-some s.counter _ (run_store ops s1)
      (kept s.counter _ ops s1 (find-store_value v s) (omega arith) (omega arith) t)
