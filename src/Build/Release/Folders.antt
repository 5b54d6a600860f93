-- ===== src/Build/Release/Folders.antt =====
-- Which folder the binaries go to, for the script that has been made.
use node_apphost.Base.{
  Str, js, str_eq, str_eq_iff, false, [], ◌++◌, none, some, ◌≡◌, ◌≢◌, ◌↔◌, inl, inr, refl, sym, ◌∙◌,
  arith, Option-cases,
}
use node_apphost.Base.Search.{replace-append}
use node_apphost.Build.{Host, given, Settings, script, create_script}
use node_apphost.Build.Scripts.{target_of, create_script-target}
use node_apphost.Build.Release.{Dirs, target_text, cpu_suffix, dirs_of, Plan, create_release}

-- `createRelease` throws exactly for a platform other than the four that it knows.
pub create_release_unsupported :
    (h : Host) (st : Settings)
    → (create_release h st ≡ none) ↔ (
        (st.platform ≢ js "android")
        × (st.platform ≢ js "ios")
        × (st.platform ≢ js "desktop")
        × (st.platform ≢ js "windows-uwp"))
unfolding create_release dirs_of
create_release_unsupported h st =
    let a = str_eq_iff st.platform (js "android") in
    let i = str_eq_iff st.platform (js "ios") in
    let d = str_eq_iff st.platform (js "desktop") in
    let w = str_eq_iff st.platform (js "windows-uwp") in
    (
      λ e. (
        (λ q. ground (arith, a)),
        (λ q. ground (arith, a, i)),
        (λ q. ground (arith, a, i, d)),
        λ q. ground (arith, a, i, d, w),
      ),
      λ e. ground (arith, a, i, d, w),
    )

create_script-cpu :
    (h : Host) (st st' : Settings) (text : Str)
    → h.is_windows ≡ false
    → create_script h st ≡ script text st'
    → st'.cpu ≡ js "--dest-cpu=" ++ given h.args (js "--dest-cpu") (js "x64")
unfolding create_script
create_script-cpu h st st' text w e = ground arith

cpu_suffix-unix :
    (st : Settings) (cpu : Str) → st.cpu ≡ js "--dest-cpu=" ++ cpu → cpu_suffix st ≡ cpu
unfolding cpu_suffix js
cpu_suffix-unix st cpu e = rw e (replace-append _ _ [] cpu tt)

folder_name : Str → Settings → Str → Str
folder_name sep st cpu =
    js "out"
    ++ (sep ++ (target_text st.forced_target ++ (js "_" ++ (st.platform ++ (js "_" ++ cpu)))))

folder_android :
    (sep t cpu : Str)
    → js "out" ++ (sep ++ (t ++ (js "_android_" ++ cpu)))
      ≡ js "out" ++ (sep ++ (t ++ (js "_" ++ (js "android" ++ (js "_" ++ cpu)))))
unfolding js
folder_android sep t cpu = refl

folder_ios :
    (sep t cpu : Str)
    → js "out" ++ (sep ++ (t ++ (js "_ios_" ++ cpu)))
      ≡ js "out" ++ (sep ++ (t ++ (js "_" ++ (js "ios" ++ (js "_" ++ cpu)))))
unfolding js
folder_ios sep t cpu = refl

folder_desktop :
    (sep t cpu : Str)
    → js "out" ++ (sep ++ (t ++ (js "_desktop_" ++ cpu)))
      ≡ js "out" ++ (sep ++ (t ++ (js "_" ++ (js "desktop" ++ (js "_" ++ cpu)))))
unfolding js
folder_desktop sep t cpu = refl

folder_name_lem :
    (sep : Str) (st : Settings) (t p c cpu : Str)
    → st.forced_target ≡ some t
    → st.platform ≡ p
    → cpu ≡ c
    → folder_name sep st cpu ≡ js "out" ++ (sep ++ (t ++ (js "_" ++ (p ++ (js "_" ++ c)))))
unfolding folder_name target_text
folder_name_lem sep st t p c cpu ft pl cp = ground arith

plan_target :
    (h : Host) (st : Settings) (d : Dirs) (plan : Plan)
    → dirs_of h st ≡ some d
    → create_release h st ≡ some plan
    → plan.output_folder ≡ d.target
unfolding create_release
plan_target h st d plan found r = ground arith

dirs_of-folder :
    (h : Host) (st : Settings) (d : Dirs)
    → st.platform ≢ js "windows-uwp"
    → dirs_of h st ≡ some d
    → d.target ≡ folder_name h.sep st (cpu_suffix st)
unfolding dirs_of folder_name
dirs_of-folder h st d p e =
    let t = target_text st.forced_target in
    ground (
      arith,
      str_eq_iff st.platform (js "android"),
      str_eq_iff st.platform (js "ios"),
      str_eq_iff st.platform (js "desktop"),
      str_eq_iff st.platform (js "windows-uwp"),
      folder_android h.sep t (cpu_suffix st),
      folder_ios h.sep t (cpu_suffix st),
      folder_desktop h.sep t (cpu_suffix st),
    )

-- Off Windows, when a script has been made for one of the first three platforms, the binaries go to
-- `out/<engine>_<platform>_<cpu>`: the engine that the script builds, and the processor of the
-- command line, x64 if it names none.
pub create_release-folder :
    (h : Host) (st st' : Settings) (text : Str) (plan : Plan)
    → h.is_windows ≡ false
    → create_script h st ≡ script text st'
    → st.platform ≢ js "windows-uwp"
    → create_release h st' ≡ some plan
    → plan.output_folder
      ≡ js "out"
        ++ (h.sep
            ++ (target_of h st
                ++ (js "_"
                    ++ (st.platform ++ (js "_" ++ given h.args (js "--dest-cpu") (js "x64"))))))
unfolding create_release
create_release-folder h st st' text plan w e p r = elim (Option-cases (dirs_of h st')) [
  | inl missing ↦ let r' : none ≡ some plan = rw missing at r in absurd (cc)
  | inr (d, found) ↦
      let (ft, pl, rel, start) = create_script-target h st st' text e in
      let folder = dirs_of-folder h st' d (λ q. p (sym pl ∙ q)) found in
      let cpu =
        cpu_suffix-unix st' (given h.args (js "--dest-cpu") (js "x64"))
          (create_script-cpu h st st' text w e) in
      plan_target h st' d plan found r
      ∙ folder
      ∙ folder_name_lem h.sep st' _ _ _ (cpu_suffix st') ft pl cpu
]

-- On windows-uwp no folder is named: the binaries go to the folder of build.js itself.
pub create_release-uwp :
    (h : Host) (st : Settings) (plan : Plan)
    → st.platform ≡ js "windows-uwp"
    → create_release h st ≡ some plan
    → plan.output_folder ≡ []
unfolding create_release dirs_of
create_release-uwp h st plan e r =
    let a : str_eq st.platform (js "android") ≡ false = rw e (unfold js str_eq in refl) in
    let i : str_eq st.platform (js "ios") ≡ false = rw e (unfold js str_eq in refl) in
    let d : str_eq st.platform (js "desktop") ≡ false = rw e (unfold js str_eq in refl) in
    ground arith
