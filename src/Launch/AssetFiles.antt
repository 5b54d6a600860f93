-- ===== src/Launch/AssetFiles.antt =====
-- samples/android/JNI_JXCORE/jni/jxcore.cpp: the native methods that look for an asset and read it.
use node_apphost.Base.{
  ℕ, Str, js, Bool, true, false, List, [], ◌∷◌, ◌++◌, Option, none, some, if◌then◌else◌, ◌==◌, ◌≡◌,
  refl, ◌∙◌, Bool-cases, Option-cases, inl, inr, length,
}
use node_apphost.Base.Options.{◌>>=◌}
use node_apphost.Wrapper.{
  js_string, js_buffer, rt_error, rt_buffer, JsValue, Engine, new_value, set_boolean, set_buffer,
  set_text, set_as, convert,
}
use node_apphost.Wrapper.Copies.{
  c_string, has_zero, c_string-append, length-c_string, set_buffer-whole, set_buffer-short,
}
use node_apphost.Wrapper.Calls.{Returned, returns, throws, result_of, free_value}
use node_apphost.Wrapper.Getters.{Reads, get_string}
use node_apphost.Wrapper.Natives.{Vm, run_callback}
use node_apphost.Launch.{asset_exists_sync, asset_read_sync, run_native, device_vm}

-- The package's files as the manager of assets opens them, and what stands in memory behind the
-- block in which a file is read.
pub record AssetFiles : Type 0 where
  pub contents : Str → Option Str
  pub beyond : Str → Str

-- `JS_GetString(&results[0])`; `none` is a call without a name.
first_name : Reads → List JsValue → Option Str
unfolding get_string
first_name r [] = none
first_name r (v ∷ vs) = get_string r v >>= λ s. s

is_some : {A : Type 0} → Option A → Bool
is_some none = false
is_some (some a) = true

abbrev pub no_file : Str
unfolding js
no_file = js "File doesn't exist"

read_file : AssetFiles → Str → Option Str → JsValue → Option JsValue
unfolding c_string set_buffer set_text
read_file files name none slot = set_text rt_error no_file (length no_file) slot
read_file files name (some data_) slot =
    set_buffer (c_string (data_ ++ files.beyond name)) (length data_) slot

with_slot : List JsValue → Option JsValue → Option (List JsValue × JsValue)
with_slot args none = none
with_slot args (some slot) = some (args, slot)

-- `assetExistsSync`.
unfoldable pub asset_exists :
    Reads → AssetFiles → List JsValue → JsValue → Option (List JsValue × JsValue)
unfolding first_name is_some with_slot set_boolean
asset_exists r files args slot =
    first_name r args >>= λ name. with_slot args (set_boolean (is_some (files.contents name)) slot)

-- `assetReadSync`.
unfoldable pub asset_read :
    Reads → AssetFiles → List JsValue → JsValue → Option (List JsValue × JsValue)
unfolding first_name read_file with_slot
asset_read r files args slot =
    first_name r args >>= λ name. with_slot args (read_file files name (files.contents name) slot)

-- The native functions but `assetReadDirSync`; what the last two do is `others`.
unfoldable pub asset_natives :
    Reads
    → AssetFiles
    → (ℕ → List JsValue → JsValue → Option (List JsValue × JsValue))
    → ℕ
    → List JsValue
    → JsValue
    → Option (List JsValue × JsValue)
unfolding asset_exists asset_read
asset_natives r files others callback args slot =
    let exists = asset_exists r files args slot in
    let content = asset_read r files args slot in
    let other = others callback args slot in
    if callback == asset_exists_sync
    then exists
    else (if callback == asset_read_sync then content else other)

-- What a call of `assetReadSync` answers; `none` is a read beyond the copy.
abbrev pub read_answer : Option Str → Option Returned
read_answer none = some (throws (js_string no_file))
read_answer (some data_) = if has_zero data_ then none else some (returns (js_buffer data_))

-- What is returned for the slot that a file was read into.
slot_answer : Engine → Option JsValue → Option Returned
slot_answer g none = none
slot_answer g (some slot) = result_of g slot

made_answer :
    (g : Engine) (size : ℕ) (data_ : Str)
    → slot_answer g (set_as rt_buffer size (js_buffer data_) new_value)
      ≡ some (returns (js_buffer data_))
unfolding slot_answer set_as result_of new_value
made_answer g size data_ = elim (Bool-cases (size == 0)) [ inl e ↦ rw e refl | inr e ↦ rw e refl ]

buffer_answer :
    (g : Engine) (data_ beyond : Str)
    → slot_answer g (set_buffer (c_string (data_ ++ beyond)) (length data_) new_value)
      ≡ read_answer (some data_)
unfolding slot_answer
buffer_answer g data_ beyond = elim (Bool-cases (has_zero data_)) [
  | inl e ↦ rw (e, set_buffer-short _ (length data_) (length-c_string data_ beyond e)) refl
  | inr e ↦
      rw (e, c_string-append data_ beyond e, set_buffer-whole data_ (c_string beyond))
        (made_answer g _ data_)
]

missing_answer :
    (g : Engine) (files : AssetFiles) (name : Str)
    → slot_answer g (read_file files name none new_value) ≡ read_answer none
unfolding slot_answer read_file set_text set_as result_of new_value no_file js
missing_answer g files name = refl

read_slot :
    (vm : Vm) (r : Reads) (files : AssetFiles)
    (others : ℕ → List JsValue → JsValue → Option (List JsValue × JsValue)) (listing name : Str)
    → r.to_text (js_string name) ≡ name
    → run_callback
        (device_vm vm (asset_natives r files others) listing)
        asset_read_sync
        (js_string name ∷ [])
      ≡ slot_answer vm.engine (read_file files name (files.contents name) new_value)
unfolding run_callback run_native asset_natives asset_read slot_answer convert free_value first_name
    get_string with_slot
read_slot vm r files others listing name h =
    rw h (elim (Option-cases (read_file files name (files.contents name) new_value)) [
      | inl e ↦ rw e refl
      | inr (slot, e) ↦ rw e refl
    ])

-- The call of `assetReadSync` from JavaScript with the name of an asset, where V8 reads the name as it
-- is: a file without a byte 0 is returned as a buffer that holds just its bytes, whatever stands
-- behind it in memory; a file with one is copied only up to it, so that the buffer reaches beyond
-- the copy; and where there is no file, an error with the text "File doesn't exist" is thrown.
pub asset_read_lem :
    (vm : Vm) (r : Reads) (files : AssetFiles)
    (others : ℕ → List JsValue → JsValue → Option (List JsValue × JsValue)) (listing name : Str)
    → r.to_text (js_string name) ≡ name
    → run_callback
        (device_vm vm (asset_natives r files others) listing)
        asset_read_sync
        (js_string name ∷ [])
      ≡ read_answer (files.contents name)
unfolding read_file set_buffer
asset_read_lem vm r files others listing name h =
    read_slot vm r files others listing name h ∙ elim (Option-cases (files.contents name)) [
      | inl e ↦ rw e (missing_answer vm.engine files name)
      | inr (data_, e) ↦ rw e (buffer_answer vm.engine data_ (files.beyond name))
    ]
