-- ===== src/RunTests/Scripts.antt =====
-- The target processor of the tests, and the parts of the test script.
use node_apphost.Base.{
  Str, js, str_eq_iff, if◌then◌else◌, ◌≡◌, ◌≢◌, ◌⊎◌, ◌↔◌, inl, inr, arith, Bool-cases,
}
use node_apphost.RunTests.{TestHost, given, pick_arch, get_arch}

-- The processor names that mean 64 bits.
abbrev pub IsWide : Str → Type 0
IsWide arch = (arch ≡ js "x64") ⊎ (arch ≡ js "x86_64") ⊎ (arch ≡ js "amd64")

-- What the option `--dest-cpu` says, ia32 if it is missing.
abbrev pub asked_cpu : TestHost → Str
asked_cpu h = given h.args (js "--dest-cpu") (js "ia32")

ia32_not_wide : (js "ia32" ≢ js "x64") × (js "ia32" ≢ js "x86_64") × (js "ia32" ≢ js "amd64")
unfolding js
ia32_not_wide = ((λ e. ground arith), (λ e. ground arith), λ e. ground arith)

x86_not_wide : (js "x86" ≢ js "x64") × (js "x86" ≢ js "x86_64") × (js "x86" ≢ js "amd64")
unfolding js
x86_not_wide = ((λ e. ground arith), (λ e. ground arith), λ e. ground arith)

pick_arch_lem :
    (arch narrow wide : Str)
    → narrow ≢ wide
    → ((pick_arch arch narrow wide ≡ wide) ↔ IsWide arch)
      × ((pick_arch arch narrow wide ≡ narrow) ⊎ (pick_arch arch narrow wide ≡ wide))
unfolding pick_arch
pick_arch_lem arch narrow wide d =
    let a = str_eq_iff arch (js "ia32") in
    let b = str_eq_iff arch (js "x86") in
    let x = str_eq_iff arch (js "x64") in
    let y = str_eq_iff arch (js "x86_64") in
    let z = str_eq_iff arch (js "amd64") in
    (
      (
        (λ e. ground (arith, x, y, z)),
        λ e. ground (arith, a, b, x, y, z, ia32_not_wide, x86_not_wide),
      ),
      ground arith,
    )

flags_differ : (js "-m32" ≢ js "-m64") × (js "Win32" ≢ js "x64")
unfolding js
flags_differ = ((λ e. ground arith), λ e. ground arith)

-- The tests are compiled for 64 bits exactly when one of the three names for that is asked for;
-- every other name, known or not, and a missing option mean 32 bits.
pub get_arch_lem :
    (h : TestHost)
    → let narrow = if h.is_windows then js "Win32" else js "-m32" in
      let wide = if h.is_windows then js "x64" else js "-m64" in
      ((get_arch h ≡ wide) ↔ IsWide (asked_cpu h)) × ((get_arch h ≡ narrow) ⊎ (get_arch h ≡ wide))
unfolding get_arch
get_arch_lem h = elim (Bool-cases h.is_windows) [
  | inl w ↦ rw w (pick_arch_lem (asked_cpu h) (js "Win32") (js "x64") flags_differ.1)
  | inr u ↦ rw u (pick_arch_lem (asked_cpu h) (js "-m32") (js "-m64") flags_differ.0)
]
