-- ===== src/Help.antt =====
-- `print_help` of build.js and of tests/runtests.js: one loop over two lists of options.
pub mod Columns
use node_apphost.Base.{
  ℕ, zero, suc, ◌+◌, ◌-◌, Str, js, Bool, true, false, List, [], ◌∷◌, ◌++◌, Option, none, some,
  if◌then◌else◌, leb, length,
}

-- `{ option, text }`.
pub record Param : Type 0 where
  pub option : Str
  pub text : Str

-- How the call ends: by `process.exit`, or by an exception of `new Buffer`; with the lines that
-- `console.log` has printed.
pub data Help : Type 0 where
  exited : ℕ → List Str → Help
  threw : List Str → Help

-- `space.fill(" ")` of a buffer of `n` bytes, as it reads in a text.
unfoldable pub spaces : ℕ → Str
spaces zero = []
spaces (suc n) = b' ' ∷ spaces n

-- `new Buffer(28 - n)`. A negative length is an empty buffer for the Node of that time, and an
-- exception for later ones: `rejects` tells which.
unfoldable pub pad : Bool → ℕ → Option Str
unfolding spaces
pad rejects n = if leb n 28 then some (spaces (28 - n)) else (if rejects then none else some [])

-- `console.log(option, space + ": ", text)` puts a space between its arguments.
unfoldable pub line : Param → Str → Str
line p space = p.option ++ (js " " ++ (space ++ (js ": " ++ (js " " ++ p.text))))

-- The loop; the lines that are printed come first to last.
printed : Help → Str → Help
printed (exited n ls) l = exited n (l ∷ ls)
printed (threw ls) l = threw (l ∷ ls)

row : Option Str → Param → Help → Help
unfolding printed line
row none p rest = threw []
row (some space) p rest = printed rest (line p space)

unfoldable pub print_help : Bool → List Param → ℕ → Help
unfolding pad row
print_help rejects [] code = exited code []
print_help rejects (p ∷ ps) code =
    row (pad rejects (length p.option)) p (print_help rejects ps code)

abbrev param : Str → Str → Param
param option text = record { option = option; text = text }

-- `params` of build.js.
unfoldable pub build_params : List Param
unfolding js
build_params =
    param (js "--help") (js "display available options")
    ∷ param [] []
    ∷ param (js "--cid_node=[commit-id]") (js "Checkout a particular commit from the node repo")
    ∷ param (js "--cid_jxcore=[commit-id]") (js "Checkout a particular commit from jxcore repo")
    ∷ param (js "--url_node=[node repo url]") (js "URL for node.js Github repo")
    ∷ param (js "--url_jxcore=[jx repo url]") (js "URL for jxcore Github repo")
    ∷ param (js "--dest-cpu=[cpu_type]")
        (js "set target cpu (arm, ia32, x86, x64). i.e. --dest-cpu=ia32")
    ∷ param (js "--ndk-path=[path]")
        (js "path to android ndk. This option is required for platform=android")
    ∷ param (js "--platform=[target]")
        (js "set target platform. by default 'desktop'. (android, desktop, ios, windows-uwp)")
    ∷ param (js "--force-target=[jxcore or nodejs]")
        (js "Force target framework regardless from the platform")
    ∷ param (js "--release") (js "Build release binary. By default Debug")
    ∷ param (js "--reset") (js "Clone nodejs and jxcore repos once again")
    ∷ param (js "--test") (js "run tests after build")
    ∷ []

-- `params` of tests/runtests.js.
unfoldable pub test_params : List Param
unfolding js
test_params =
    param (js "--help") (js "display available options")
    ∷ param [] []
    ∷ param (js "--dest-cpu=[cpu_type]")
        (js "set target cpu (arm, ia32, x86, x64). i.e. --dest-cpu=ia32")
    ∷ param (js "--file=[test name]") (js "Test only the given single test")
    ∷ param (js "--mode=[build mode]") (js "Set Debug, or Release. Default `Debug`")
    ∷ param (js "--target=[target binary]") (js "Set jxcore, or nodejs. [Required]")
    ∷ []

-- `print_help` of each file.
unfoldable pub build_help : Bool → ℕ → Help
build_help rejects code = print_help rejects build_params code

unfoldable pub test_help : Bool → ℕ → Help
test_help rejects code = print_help rejects test_params code
