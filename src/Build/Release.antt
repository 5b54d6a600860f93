-- ===== src/Build/Release.antt =====
-- build.js, `createRelease`: where the compiled binaries are copied from and to.
pub mod Folders
use node_apphost.Base.{
  Str, js, str_eq, Bool, true, false, List, [], ◌∷◌, ◌++◌, Option, none, some, if◌then◌else◌,
}
use node_apphost.Base.Dict.{has}
use node_apphost.Base.Search.{replace}
use node_apphost.Build.{Host, Settings}

-- `dirs`.
pub record Dirs : Type 0 where
  pub target : Str
  pub source : Str
  pub types : List Str

-- `forced_target`, which `createScript` has set.
unfoldable pub target_text : Option Str → Str
target_text none = []
target_text (some t) = t

unfoldable pub cpu_suffix : Settings → Str
cpu_suffix st = replace (js "--dest-cpu=") [] st.cpu

out_folder : Host → Settings → Str → Str
unfolding target_text cpu_suffix
out_folder h st infix_ =
    js "out" ++ (h.sep ++ (target_text st.forced_target ++ (infix_ ++ cpu_suffix st)))

build_kind : Host → Str
build_kind h = if has (js "--release") h.args then js "Release" else js "Debug"

desktop_dirs : Host → Settings → Dirs
unfolding out_folder build_kind target_text
desktop_dirs h st =
    if h.is_windows
    then record {
      target = out_folder h st (js "_desktop_");
      source = target_text st.forced_target ++ (h.sep ++ build_kind h);
      types = js "*.dll" ∷ js "*.lib" ∷ [];
    }
    else record {
      target = out_folder h st (js "_desktop_");
      source =
          target_text st.forced_target
          ++ (h.sep ++ (js "out" ++ (h.sep ++ (build_kind h ++ h.sep))));
      types = js "*.a" ∷ [];
    }

-- The chain of tests on `platform`; `none` is the exception for a platform that is not supported.
unfoldable pub dirs_of : Host → Settings → Option Dirs
unfolding out_folder desktop_dirs build_kind target_text
dirs_of h st =
    if str_eq st.platform (js "android")
    then some (record {
      target = out_folder h st (js "_android_");
      source = js "jxcore/out_android/android/bin/";
      types = js "*.a" ∷ [];
    })
    else (if str_eq st.platform (js "ios")
        then some (record {
          target = out_folder h st (js "_ios_");
          source = js "jxcore/out_ios/ios/bin/";
          types = js "*.a" ∷ [];
        })
        else (if str_eq st.platform (js "desktop")
            then some (desktop_dirs h st)
            else (if str_eq st.platform (js "windows-uwp")
                then some (record {
                  target = [];
                  source = target_text st.forced_target ++ (h.sep ++ build_kind h);
                  types = js "*.dll" ∷ js "*.lib" ∷ [];
                })
                else none)))

-- One line of the script for each pattern.
copy_lines : Host → Str → Str → Str → List Str → Str
copy_lines h copy source target [] = []
copy_lines h copy source target (tp ∷ types) =
    copy
    ++ (js " "
        ++ (source
            ++ (h.sep
                ++ (tp
                    ++ (js " "
                        ++ (target
                            ++ (h.sep ++ (js "\n" ++ copy_lines h copy source target types))))))))

-- What `createRelease` makes: the folders for `safeCreate`, the script and its file.
pub record Plan : Type 0 where
  pub folders : List Str
  pub copy_script : Str
  pub script_file : Str
  pub output_folder : Str

plan_of : Host → Dirs → Plan
unfolding copy_lines
plan_of h dirs =
    let copy = if h.is_windows then js "copy" else js "cp" in
    let target = h.join h.dirname dirs.target in
    record {
      folders = js "out" ∷ dirs.target ∷ [];
      copy_script =
          copy_lines h copy (h.join h.dirname dirs.source) target dirs.types
          ++ (copy
              ++ (js " "
                  ++ (h.join h.dirname
                        (js "patch" ++ (h.sep ++ (js "node" ++ (h.sep ++ js "node_wrapper.h"))))
                      ++ (js " " ++ (target ++ (h.sep ++ js "\n"))))));
      script_file = h.join h.dirname (js "temp" ++ (h.sep ++ js "distro.bat"));
      output_folder = dirs.target;
    }

plan_if : Host → Option Dirs → Option Plan
unfolding plan_of
plan_if h none = none
plan_if h (some dirs) = some (plan_of h dirs)

-- `createRelease`.
unfoldable pub create_release : Host → Settings → Option Plan
unfolding plan_if
create_release h st = plan_if h (dirs_of h st)
