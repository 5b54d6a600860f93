-- ===== src/Build/Scripts.antt =====
-- What the compile script is for, and when there is none.
use node_apphost.Base.{
  Str, js, str_eq, Bool, true, false, not, ◌++◌, some, if◌then◌else◌, ◌&&◌, ◌||◌, ◌≡◌, ◌↔◌, arith,
}
use node_apphost.Base.Search.{starts_with}
use node_apphost.Base.Dict.{has}
use node_apphost.Build.{Host, Settings, is_target, script, exits, reference_error, create_script}

-- What decides for JXcore: the option, and the mobile platforms except on Windows.
abbrev pub wants_jxcore : Host → Settings → Bool
wants_jxcore h st =
    is_target st.forced_target (js "jxcore")
    || not h.is_windows && (str_eq st.platform (js "ios") || str_eq st.platform (js "android"))

abbrev pub target_of : Host → Settings → Str
target_of h st = if wants_jxcore h st then js "jxcore" else js "nodejs"

-- A script that is made starts in the folder of the engine that it builds, which is JXcore if it
-- is asked for or the platform is a mobile one off Windows, and Node otherwise; the settings then
-- name that engine, and keep the platform and the kind of build.
pub create_script-target :
    (h : Host) (st st' : Settings) (text : Str)
    → create_script h st ≡ script text st'
    → (st'.forced_target ≡ some (target_of h st))
      × (st'.platform ≡ st.platform)
      × (st'.release ≡ st.release)
      × (starts_with (js "cd " ++ target_of h st) text ≡ true)
unfolding create_script js starts_with
create_script-target h st st' text e = ground arith

-- There is no script in two cases. Off Windows, the platform is android and the path of the NDK is
-- missing: the process exits with 1. On Windows, JXcore is asked for on windows-uwp: the call of
-- `exit`, which is not defined, throws.
pub create_script_refuses :
    (h : Host) (st : Settings)
    → ((create_script h st ≡ exits 1) ↔ (
        (h.is_windows ≡ false)
        × (str_eq st.platform (js "android") ≡ true)
        × (has (js "--ndk-path") h.args ≡ false)))
      × ((create_script h st ≡ reference_error) ↔ (
          (h.is_windows ≡ true)
          × (str_eq st.platform (js "windows-uwp") ≡ true)
          × (is_target st.forced_target (js "jxcore") ≡ true)))
unfolding create_script
create_script_refuses h st =
    ((λ e. ground arith, λ e. ground arith), (λ e. ground arith, λ e. ground arith))
