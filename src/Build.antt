-- ===== src/Build.antt =====
-- build.js: the command line's settings, and the script that compiles the engine.
pub mod Scripts
pub mod Patches
pub mod Release
pub mod Main
pub mod Disk
use node_apphost.Base.{
  ℕ, Str, js, str_eq, Bool, true, false, List, [], ◌∷◌, ◌++◌, Option, none, some, if◌then◌else◌,
  ◌&&◌, ◌||◌,
}
use node_apphost.Base.Dict.{Dict, lookup, has}
use node_apphost.Taskman.{ArgValue, to_text}

-- The machine that build.js runs on: the command line, `os.cpus().length`, `__dirname` and `path`.
pub record Host : Type 0 where
  pub is_windows : Bool
  pub args : Dict ArgValue
  pub cpus : Str
  pub dirname : Str
  pub sep : Str
  pub join : Str → Str → Str
  pub resolve : Str → Str

-- `args.hasOwnProperty(key) ? args[key] : otherwise`, as it reads in a text.
unfoldable pub given : Dict ArgValue → Str → Str → Str
given args key otherwise = elim (lookup key args) [ none ↦ otherwise | some v ↦ to_text v ]

forced_of : Option ArgValue → Option Str
forced_of none = none
forced_of (some v) = some (to_text v)

-- The variables `platform`, `forced_target`, `release` and `cpu`.
pub record Settings : Type 0 where
  pub platform : Str
  pub forced_target : Option Str
  pub release : Bool
  pub cpu : Str

unfoldable pub settings : Dict ArgValue → Settings
unfolding given forced_of
settings args = record {
  platform = given args (js "--platform") (js "desktop");
  forced_target = forced_of (lookup (js "--force-target") args);
  release = has (js "--release") args;
  cpu = [];
}

-- `forced_target == name`.
abbrev pub is_target : Option Str → Str → Bool
is_target none name = false
is_target (some t) name = str_eq t name

-- A text, `process.exit`, or an exception.
pub data Script : Type 0 where
  script : Str → Settings → Script
  exits : ℕ → Script
  reference_error : Script

debug_flag : Bool → Str
debug_flag release = if release then js " " else js "--debug "

with_target : Str → Settings → Settings
with_target t st = record st { forced_target = some t }

android_script : Str → Str
android_script ndk =
    js "cd jxcore\n"
    ++ (js "build_scripts/android-configure.sh "
        ++ (ndk
            ++ (js "\nif [ $? != 0 ]; then\n  exit 1\nfi\nbuild_scripts/android_compile.sh "
                ++ (ndk ++ js " --embed-leveldown\nif [ $? != 0 ]; then\n  exit 1\nfi\n"))))

ios_script : Str
ios_script =
    js "cd jxcore\n" ++ js "build_scripts/ios_compile.sh\nif [ $? != 0 ]; then\n  exit 1\nfi\n"

jxcore_script : Settings → Str
unfolding debug_flag
jxcore_script st =
    js "cd jxcore\n"
    ++ (js "./configure --engine-mozilla --static-library "
        ++ (debug_flag st.release ++ (st.cpu ++ js "\nmake")))

nodejs_script : Str → Settings → Str
unfolding debug_flag
nodejs_script cpus st =
    js "cd nodejs"
    ++ (js ";./configure --enable-static "
        ++ (debug_flag st.release ++ (st.cpu ++ (js ";make -j " ++ cpus))))

-- The branch of `createScript` for every system but Windows; `st.cpu` has been set.
unix_script : Host → Settings → Script
unfolding with_target android_script ios_script jxcore_script nodejs_script
unix_script h st =
    if str_eq st.platform (js "ios")
      || str_eq st.platform (js "android")
      || is_target st.forced_target (js "jxcore")
    then (if str_eq st.platform (js "android")
        then (if has (js "--ndk-path") h.args
            then script (android_script (given h.args (js "--ndk-path") []))
                (with_target (js "jxcore") st)
            else exits 1)
        else (if str_eq st.platform (js "ios")
            then script ios_script (with_target (js "jxcore") st)
            else script (jxcore_script st) (with_target (js "jxcore") st)))
    else script (nodejs_script h.cpus st) (with_target (js "nodejs") st)

-- The rest of a Windows script, behind the call of `vcbuild.bat`.
batch_tail : Settings → Str
batch_tail st =
    (if str_eq st.platform (js "windows-uwp") then js "chakra uwp-dll " else [])
    ++ ((if st.release then js "release" else js "debug")
        ++ (js " > buildlog_"
            ++ (st.cpu ++ js ".log\nset EXIT_CODE=%errorlevel%\ncd ..\nexit /b %EXIT_CODE%\n")))

-- The branch for Windows; `exit` is not defined in build.js, so that its call throws.
windows_script : Settings → Script
unfolding with_target batch_tail
windows_script st =
    if str_eq st.platform (js "windows-uwp") && is_target st.forced_target (js "jxcore")
    then reference_error
    else (if is_target st.forced_target (js "jxcore")
        then script
            (js "cd jxcore\n"
              ++ (js "vcbuild.bat --shared-library " ++ (st.cpu ++ (js " " ++ batch_tail st))))
            (with_target (js "jxcore") st)
        else script
            (js "cd nodejs\n"
              ++ (js "vcbuild.bat nosign " ++ (st.cpu ++ (js " " ++ batch_tail st))))
            (with_target (js "nodejs") st))

-- `createScript`.
unfoldable pub create_script : Host → Settings → Script
unfolding unix_script windows_script
create_script h st =
    let cpu = given h.args (js "--dest-cpu") (js "x64") in
    if h.is_windows
    then windows_script (record st { cpu = cpu })
    else unix_script h (record st { cpu = js "--dest-cpu=" ++ cpu })
