-- ===== src/Tests/BuildTests.antt =====
-- build.js, run on small command lines and file systems.
use node_apphost.Base.{
  ◌*◌, ◌+◌, Str, js, str_eq, Bool, true, false, List, [], ◌∷◌, ◌++◌, none, some, ◌≡◌, refl, arith,
  length, drop,
}
use node_apphost.Base.Dict.{Dict, has, lookup, insert}
use node_apphost.Base.Search.{index_of, starts_with}
use node_apphost.Taskman.{ArgValue, text}
use node_apphost.Taskman.Queue.{Exec, succeeded, returns, Phase, steps, start_with}
use node_apphost.Taskman.Queue.Completion.{titles, ran, next, done}
use node_apphost.Build.{Host, given, Settings, settings, script, create_script}
use node_apphost.Build.Scripts.{target_of}
use node_apphost.Build.Patches.{
  Files, sources_mark, node_sources, jxcore_sources, char_at, include_line, include_wrapper,
  brace_from, is_brace, patch_jxcore, patch_nodejs,
}
use node_apphost.Build.Patches.Effects.{IsPatched, patch_jxcore_lem, patch_nodejs_lem}
use node_apphost.Build.Release.{Plan, dirs_of, create_release}
use node_apphost.Build.Main.{first_tasks, build_tasks, main, batch_files}
use node_apphost.Build.Main.Queue.{build_stops_unpatched, main_writes_script}

abbrev host : Bool → Dict ArgValue → Host
host windows args = record {
  is_windows = windows;
  args = args;
  cpus = js "4";
  dirname = js "/h";
  sep = b'/' ∷ [];
  join = λ a b. a ++ b'/' ∷ b;
  resolve = λ p. p;
}

-- `node build.js --platform=android --ndk-path=n`.
abbrev android : Host
android =
    host false ((js "--platform", text (js "android")) ∷ (js "--ndk-path", text (js "n")) ∷ [])

abbrev plain : Host
plain = host false []

abbrev uwp_settings : Settings
uwp_settings = record {
  platform = js "windows-uwp";
  forced_target = some (js "nodejs");
  release = false;
  cpu = js "x64";
}

abbrev some_plan : Plan
some_plan = record { folders = []; copy_script = []; script_file = js "d"; output_folder = js "o" }

abbrev clean_shell : Str → Files → Exec Files
clean_shell c s = succeeded s

abbrev gyp_files : Str → Files
gyp_files gyp = (js "./nodejs/node.gyp", gyp) ∷ []

build_stops_unpatched_example :
    let ts = first_tasks plain (λ _. true) ++ build_tasks plain uwp_settings some_plan in
    steps clean_shell (2 * length ts + 1) (start_with ts (gyp_files (js "{}")) []) ≡ record {
      tasker = drop 1 (build_tasks plain uwp_settings some_plan);
      world = gyp_files (js "{}");
      shown = titles (first_tasks plain (λ _. true));
      phase = Phase.exited 1;
    }
unfolding js first_tasks lookup str_eq index_of starts_with sources_mark has
build_stops_unpatched_example =
    build_stops_unpatched clean_shell plain (λ _. true) uwp_settings some_plan (gyp_files (js "{}"))
      (gyp_files (js "{}")) (js "{}")
      (next (ran _ (record { cmd = refl; cmd_filled = refl; titled = refl }) refl)
        (next (ran _ (record { cmd = refl; cmd_filled = refl; titled = refl }) refl) done))
      refl refl

abbrev plain_settings : Settings
plain_settings = record { platform = js "desktop"; forced_target = none; release = false; cpu = [] }

abbrev node_settings : Settings
node_settings = record {
  platform = js "desktop";
  forced_target = some (js "nodejs");
  release = false;
  cpu = js "--dest-cpu=x64";
}

abbrev node_script : Str
node_script =
    js "cd nodejs"
    ++ (js ";./configure --enable-static "
        ++ (js "--debug " ++ (js "--dest-cpu=x64" ++ (js ";make -j " ++ js "4"))))

made : create_script plain plain_settings ≡ script node_script node_settings
unfolding js create_script given lookup str_eq
made = refl

abbrev desktop_plan : Plan
unfolding js create_release dirs_of str_eq has
desktop_plan = elim (create_release plain node_settings) [ none ↦ some_plan | some p ↦ p ]

abbrev uwp_plan : Plan
unfolding js create_release dirs_of str_eq has
uwp_plan = elim (create_release (host true []) uwp_settings) [ none ↦ some_plan | some p ↦ p ]

-- The file `x'sources': [y` in the place of a .gyp file.
abbrev marked : Str
marked = js "x" ++ (sources_mark ++ js "y")

patch_jxcore_lem_example :
    (patched : Str) × IsPatched jxcore_sources marked patched
    × (patch_jxcore ((js "./jxcore/jx.gyp", marked) ∷ [])
        ≡ returns (insert (js "./jxcore/jx.gyp") patched ((js "./jxcore/jx.gyp", marked) ∷ [])))
unfolding js lookup str_eq index_of starts_with sources_mark
patch_jxcore_lem_example =
    patch_jxcore_lem ((js "./jxcore/jx.gyp", marked) ∷ []) marked refl (λ e. ground arith)

abbrev cloned : Files
cloned =
    (js "./nodejs/node.gyp", marked)
    ∷ (js "./nodejs/src/node.cc", js "}a}b")
    ∷ (js "patch/node/module_patch.js", js "mp")
    ∷ (js "./nodejs/lib/module.js", js "m")
    ∷ (js "patch/node/fs_patch.js", js "fp")
    ∷ (js "./nodejs/lib/fs.js", js "f")
    ∷ []

patch_nodejs_lem_example :
    (gyp' : Str) × IsPatched node_sources marked gyp'
    × (patch_nodejs false cloned
        ≡ returns (
            insert (js "./nodejs/lib/fs.js") (js "f" ++ (js "\n" ++ js "fp")) (
              insert (js "./nodejs/lib/module.js") (js "m" ++ (js "\n" ++ js "mp")) (
                insert
                  (js "./nodejs/src/node.cc")
                  (js "}a" ++ (include_line ++ js "}b"))
                  (insert (js "./nodejs/node.gyp") gyp' cloned)))))
unfolding js lookup str_eq index_of starts_with sources_mark include_wrapper brace_from is_brace
    char_at
patch_nodejs_lem_example =
    patch_nodejs_lem cloned marked (js "}a") (js "b") (js "mp") (js "m") (js "fp") (js "f") refl
      refl refl refl refl refl (λ e. ground arith) (λ e. cc) (omega arith, tt)

main_writes_script_example :
    (text : Str) × (rest : List (Str × Str)) × (st : Settings) × (plan : Plan) × (batch_files plain
        node_script node_settings
      ≡ (js "./temp/compile.bat", text) ∷ rest)
    × (starts_with (js "cd " ++ target_of plain (settings plain.args)) text ≡ true)
    × (st.forced_target ≡ some (target_of plain (settings plain.args)))
    × (first_tasks plain (λ _. true) ++ build_tasks plain node_settings desktop_plan
        ≡ first_tasks plain (λ _. true) ++ build_tasks plain st plan)
unfolding js create_script given create_release dirs_of lookup str_eq has settings main
main_writes_script_example =
    main_writes_script plain (λ _. true) (batch_files plain node_script node_settings)
      (first_tasks plain (λ _. true) ++ build_tasks plain node_settings desktop_plan) refl
