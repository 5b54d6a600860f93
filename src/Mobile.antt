-- ===== src/Mobile.antt =====
-- samples/android/assets/jxcore_cordova.js: the device's half of the bridge between the user
-- interface and the node program. This module has its values, its state and its effects.
pub mod Events
pub mod Methods
pub mod Execute
pub mod Start
use node_apphost.Base.{
  ℕ, Str, Bool, true, false, not, List, [], ◌∷◌, ◌++◌, Option, none, some, if◌then◌else◌, is_empty,
  ◌==◌,
}
use node_apphost.Base.Dict.{Dict}

-- JavaScript values. A function is one of the program's own, which `Engine.invoke` runs, or a
-- closure that the bridge makes: `answer cid` is `new MakeCallback(cid).callback`, and
-- `null_first f` is `function(res) { f(null, res); }`.
mutual
  pub data Value : Type 0 where
    undefined null : Value
    bool : Bool → Value
    num : ℕ → Value
    text : Str → Value
    array : Values → Value
    object : Fields → Value
    function : Fn → Value

  pub data Values : Type 0 where
    nil : Values
    cons : Value → Values → Values

  pub data Fields : Type 0 where
    end : Fields
    field : Str → Value → Fields → Fields

  pub data Fn : Type 0 where
    user : ℕ → Fn
    answer : Value → Fn
    null_first : Fn → Fn
    noop : Fn

abbrev pub values : List Value → Values
values [] = nil
values (v ∷ vs) = cons v (values vs)

abbrev pub truthy : Value → Bool
truthy undefined = false
truthy null = false
truthy (bool b) = b
truthy (num n) = not (n == 0)
truthy (text s) = not (is_empty s)
truthy _ = true

-- What `JXMobile.events` holds: a `WrapFunction` with its `cb` and `fnc`, or any other value.
pub data Target : Type 0 where
  wrapped : Str → Fn → Target
  plain : Value → Target

pub record Method : Type 0 where
  pub is_synced : Bool
  pub method : Value

-- `{ callback : v }` or `{ returnCallback : f }`.
pub data UiEntry : Type 0 where
  callback : Value → UiEntry
  return_callback : Fn → UiEntry

-- The module's variables; `sent` lists the calls of `process.natives.callJXcoreNative`, `warned`
-- the names that `ping` warned of, and `native_events` what `defineEventCB` was told.
pub record Mobile : Type 0 where
  pub events : Dict Target
  pub event_id : ℕ
  pub jx_methods : Dict Method
  pub ui_methods : Dict UiEntry
  pub return_reference_counter : ℕ
  pub sent : List (List Value)
  pub warned : List Str
  pub native_events : Dict Value

-- A thrown value: whether it is an object on which a stack can be set, as all errors are, and its
-- `message` and `stack`.
pub record Err : Type 0 where
  pub takes_stack : Bool
  pub message : Value
  pub stack : Str

-- A call returns a value or throws, in a new state.
pub data Res (A : Type 0) : Type 0 where
  ok : A → Mobile → Res A
  throw : Err → Mobile → Res A

abbrev pub M : Type 0 → Type 0
M A = Mobile → Res A

infixl 5 ◌>>=◌ ◌>>◌
abbrev pub ◌>>=◌ : {A B : Type 0} → M A → (A → M B) → M B
◌>>=◌ m f s = elim (m s) [ ok a s' ↦ f a s' | throw e s' ↦ throw e s' ]

abbrev pub ◌>>◌ : {A B : Type 0} → M A → M B → M B
◌>>◌ m k = m >>= λ _. k

abbrev pub pure : {A : Type 0} → A → M A
pure a s = ok a s

abbrev pub fail : {A : Type 0} → Err → M A
fail e s = throw e s

abbrev pub modify : (Mobile → Mobile) → M (Unit {0})
modify f s = ok tt (f s)

-- `try { m } catch (e) { h(e) }`.
abbrev pub catch : {A : Type 0} → M A → (Err → M A) → M A
catch m h s = elim (m s) [ ok a s' ↦ ok a s' | throw e s' ↦ h e s' ]

-- The JavaScript engine and the parts of the program that this file does not hold: running a
-- function of the program, loading a module, `JSON`, texts of values and of stacks.
pub record Engine : Type 0 where
  pub is_android : Bool
  pub invoke : ℕ → List Value → M Value
  pub require : Str → M (Unit {0})
  pub json_parse : Str → Option Value
  pub parse_error : Value
  pub stringify : Str → Str
  pub value_text : Value → Str
  pub in_cwd : Str → Str
  pub type_error : Err
  pub error_stack : Str → Str
  pub captured_stack : Err → Str

-- `new Error(message)`.
abbrev pub new_error : Engine → Str → Err
new_error g message = record {
  takes_stack = true;
  message = text message;
  stack = g.error_stack message;
}
