-- ===== src/Exec/Provider.antt =====
-- samples/android/assets/www/cordova-js-src/android/nativeapiprovider.js and promptbasednativeapi.js:
-- which native interface a call takes, and the texts that `prompt` carries when it is that one.
use node_apphost.Base.{
  ℕ, Str, js, Bool, true, false, [], ◌∷◌, ◌++◌, if◌then◌else◌, ◌≡◌, ◌≢◌, refl, arith, ap, zero, suc,
}
use node_apphost.Base.Decimal.{decimal, decimal-injective}
use node_apphost.Exec.Bridge.{
  Bridge, Native, NativeMode, polling, load_url, online_event, Call, execute, retrieve, set_mode,
  JsMode, set_js_mode, poll_once,
}

-- `_cordovaNative`, the interface of `prompt`, or one that a test has set.
pub data Api : Type 0 where
  object_api prompt_api : Api
  test_api : ℕ → Api

pub record Provider : Type 0 where
  pub native_api : Api
  pub current_api : Api

unfoldable pub provider : Bool → Provider
provider has_object =
    let api = if has_object then object_api else prompt_api in
    record { native_api = api; current_api = api }

-- `setPreferPrompt` and `set`.
unfoldable pub set_prefer_prompt : Bool → Provider → Provider
set_prefer_prompt value p = record p { current_api = if value then prompt_api else p.native_api }

unfoldable pub set_api : Api → Provider → Provider
set_api value p = record p { current_api = value }

-- The interface that `get` answers is the one that the bridge's flag stands for.
abbrev pub Agrees : Native → Bridge → Provider → Type 0
Agrees w b p =
    (p.native_api ≡ (if w.has_object then object_api else prompt_api))
    × (p.current_api ≡ (if b.prefers_prompt then prompt_api else p.native_api))

-- `setJsToNativeBridgeMode` sets the flag as it sets the provider.
pub set_js_mode-Agrees :
    (w : Native) (m : JsMode) (b : Bridge) (p : Provider)
    → Agrees w b p
    → Agrees w (set_js_mode w m b) (set_prefer_prompt (set_js_mode w m b).prefers_prompt p)
unfolding set_prefer_prompt
set_js_mode-Agrees w m b p (h, k) = (h, refl)

-- Before the first call of it, with no preference.
pub provider-Agrees :
    (w : Native) (b : Bridge) → b.prefers_prompt ≡ false → Agrees w b (provider w.has_object)
unfolding provider
provider-Agrees w b h = (refl, rw h refl)

mode_text : NativeMode → Str
unfolding js
mode_text polling = js "0"
mode_text load_url = js "1"
mode_text online_event = js "2"

-- `prompt(message, defaultValue)`.
pub record Prompt : Type 0 where
  pub message : Str
  pub default_value : Str

-- The functions of promptbasednativeapi.js; `stringify` is `JSON.stringify` of a number and three texts.
unfoldable pub prompt_of : (ℕ → Str → Str → Str → Str) → ℕ → Call → Prompt
unfolding js mode_text
prompt_of stringify secret (execute by_prompt service action id args) = record {
  message = args;
  default_value = js "gap:" ++ stringify secret service action id;
}
prompt_of stringify secret (set_mode by_prompt m) = record {
  message = mode_text m;
  default_value = js "gap_bridge_mode:" ++ decimal secret;
}
prompt_of stringify secret (retrieve by_prompt from_online) = record {
  message = if from_online then js "1" else js "0";
  default_value = js "gap_poll:" ++ decimal secret;
}

-- The listener of `hookOnlineApis` for the window's events online and offline,
-- `pollOnceFromOnlineEvent`.
unfoldable pub online_changed : Native → Bridge → Bridge
unfolding poll_once
online_changed w b = poll_once w true b

drop_common : (s t u : Str) → s ++ t ≡ s ++ u → t ≡ u
drop_common [] t u h = h
drop_common (c ∷ s) t u h = drop_common s t u (cc)

code_at : ℕ → Str → ℕ
code_at n [] = 0
code_at zero (c ∷ s) = c
code_at (suc n) (c ∷ s) = code_at n s

mode_text-injective : (m m' : NativeMode) → mode_text m ≡ mode_text m' → m ≡ m'
unfolding mode_text js
mode_text-injective polling polling h = refl
mode_text-injective load_url load_url h = refl
mode_text-injective online_event online_event h = refl
mode_text-injective polling load_url h = ground arith
mode_text-injective polling online_event h = ground arith
mode_text-injective load_url polling h = ground arith
mode_text-injective load_url online_event h = ground arith
mode_text-injective online_event polling h = ground arith
mode_text-injective online_event load_url h = ground arith

flag_text-injective :
    (a b : Bool) → (if a then js "1" else js "0") ≡ (if b then js "1" else js "0") → a ≡ b
unfolding js
flag_text-injective true true h = refl
flag_text-injective false false h = refl
flag_text-injective true false h = ground arith
flag_text-injective false true h = ground arith

-- The call goes through `prompt`.
abbrev pub IsByPrompt : Call → Type 0
IsByPrompt (execute by_prompt service action id args) = by_prompt ≡ true
IsByPrompt (retrieve by_prompt from_online) = by_prompt ≡ true
IsByPrompt (set_mode by_prompt m) = by_prompt ≡ true

-- Distinct arguments have distinct texts.
abbrev pub IsInjective : (ℕ → Str → Str → Str → Str) → Type 0
IsInjective stringify =
    (n n' : ℕ) (s s' a a' i i' : Str)
    → stringify n s a i ≡ stringify n' s' a' i'
    → (n ≡ n') × (s ≡ s') × (a ≡ a') × (i ≡ i')

-- Texts that differ at a place are distinct.
differ_at : (k m n : ℕ) (s t : Str) → s ≡ t → code_at k s ≡ m → code_at k t ≡ n → m ≢ n → ⊥
differ_at k m n s t e h h' d = d (cc)

-- Native code can tell the calls that come by `prompt` apart: two calls with the same texts are the
-- same call with the same secret. Condition: `JSON.stringify` gives distinct texts for distinct
-- arguments.
pub prompt_of-injective :
    (stringify : ℕ → Str → Str → Str → Str) (n n' : ℕ) (c c' : Call)
    → IsInjective stringify
    → IsByPrompt c
    → IsByPrompt c'
    → prompt_of stringify n c ≡ prompt_of stringify n' c'
    → (n ≡ n') × (c ≡ c')
unfolding prompt_of js code_at
prompt_of-injective f n n' (execute p s a i r) (execute p' s' a' i' r') inj h h' e =
    let (k, ks, ka, ki) =
      inj n n' s s' a a' i i' (drop_common (js "gap:") _ _ (ap (λ t. t.default_value) e)) in
    (k, rw (h, h', ks, ka, ki, ap (λ t. t.message) e) refl)
prompt_of-injective f n n' (set_mode p m) (set_mode p' m') inj h h' e = (
  decimal-injective n n' (drop_common (js "gap_bridge_mode:") _ _ (ap (λ t. t.default_value) e)),
  rw (h, h', mode_text-injective m m' (ap (λ t. t.message) e)) refl,
)
prompt_of-injective f n n' (retrieve p o) (retrieve p' o') inj h h' e = (
  decimal-injective n n' (drop_common (js "gap_poll:") _ _ (ap (λ t. t.default_value) e)),
  rw (h, h', flag_text-injective o o' (ap (λ t. t.message) e)) refl,
)
prompt_of-injective f n n' (execute p s a i r) (set_mode p' m') inj h h' e =
    absurd (differ_at 3 58 95 _ _ (ap (λ t. t.default_value) e) refl refl (omega arith))
prompt_of-injective f n n' (execute p s a i r) (retrieve p' o') inj h h' e =
    absurd (differ_at 3 58 95 _ _ (ap (λ t. t.default_value) e) refl refl (omega arith))
prompt_of-injective f n n' (set_mode p m) (execute p' s' a' i' r') inj h h' e =
    absurd (differ_at 3 95 58 _ _ (ap (λ t. t.default_value) e) refl refl (omega arith))
prompt_of-injective f n n' (retrieve p o) (execute p' s' a' i' r') inj h h' e =
    absurd (differ_at 3 95 58 _ _ (ap (λ t. t.default_value) e) refl refl (omega arith))
prompt_of-injective f n n' (set_mode p m) (retrieve p' o') inj h h' e =
    absurd (differ_at 4 98 112 _ _ (ap (λ t. t.default_value) e) refl refl (omega arith))
prompt_of-injective f n n' (retrieve p o) (set_mode p' m') inj h h' e =
    absurd (differ_at 4 112 98 _ _ (ap (λ t. t.default_value) e) refl refl (omega arith))
