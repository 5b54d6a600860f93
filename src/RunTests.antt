-- ===== src/RunTests.antt =====
-- tests/runtests.js: the script that compiles and runs the native tests.
pub mod Scripts
pub mod Main
use node_apphost.Base.{
  Str, js, str_eq, Bool, true, false, List, [], ◌∷◌, ◌++◌, Option, none, some, if◌then◌else◌, ◌||◌,
}
use node_apphost.Base.Dict.{Dict, lookup, has}
use node_apphost.Base.Search.{replace, replace_all}
use node_apphost.Taskman.{ArgValue, to_text}

-- The machine: `process.platform`, the command line, and `root_folder`.
pub record TestHost : Type 0 where
  pub is_windows : Bool
  pub system : Str
  pub args : Dict ArgValue
  pub root_folder : Str

unfoldable pub given : Dict ArgValue → Str → Str → Str
given args key otherwise = elim (lookup key args) [ none ↦ otherwise | some v ↦ to_text v ]

build_type : TestHost → Str
unfolding given
build_type h = given h.args (js "--mode") (js "Debug")

is_32 : Str → Bool
is_32 arch = str_eq arch (js "ia32") || str_eq arch (js "x86")

is_64 : Str → Bool
is_64 arch = str_eq arch (js "x64") || str_eq arch (js "x86_64") || str_eq arch (js "amd64")

unfoldable pub pick_arch : Str → Str → Str → Str
unfolding is_32 is_64
pick_arch arch narrow wide = if is_32 arch then narrow else (if is_64 arch then wide else narrow)

-- `getARCH`.
unfoldable pub get_arch : TestHost → Str
unfolding given pick_arch
get_arch h =
    let arch = given h.args (js "--dest-cpu") (js "ia32") in
    if h.is_windows
    then pick_arch arch (js "Win32") (js "x64")
    else pick_arch arch (js "-m32") (js "-m64")

-- The texts that `build` joins, for each system.
unix_build : TestHost → Str
unfolding build_type
unix_build h =
    js "cd "
    ++ (h.root_folder
        ++ (js "tests\necho Testing $$TARGET_TEST\nmake BUILD_TYPE="
            ++ (build_type h
                ++ (js " TARGET_TEST=$$TARGET_TEST TEST_BINARY=$$TEST_BINARY  DEST_CPU="
                    ++ (get_arch h
                        ++ (js " PLATFORM="
                            ++ (h.system
                                ++ js
                                    "\nOUT=$?\nif [ $OUT == 0 ]; then\n  ./test.o\n  OUT=$?\nfi\nrm -rf test.o\nif [ $OUT != 0 ]; then\nexit $OUT\nfi\n")))))))

windows_build : TestHost → Str
windows_build h =
    js "cd "
    ++ (h.root_folder
        ++ js
            "\\winproj\\test_app\ncopy ..\\..\\tests\\$$TARGET_TEST\\test.cpp .\nmsbuild /m /nologo current.sln\nif %errorlevel% NEQ 0 exit 1\ncopy *.dll Debug\\\ncd Debug\necho *********** RUNNING $$TARGET_TEST *************\ncurrent.exe\nif %errorlevel% NEQ 0 (\nexit 1\n)\n")

-- `build`.
unfoldable pub build : TestHost → Str
unfolding unix_build windows_build
build h = if h.is_windows then windows_build h else unix_build h

-- `tests`.
unfoldable pub test_names : List Str
test_names =
    js "call-function"
    ∷ js "check-type"
    ∷ js "create-array"
    ∷ js "create-object"
    ∷ js "native-method"
    ∷ js "new_value"
    ∷ js "raise-unhandled"
    ∷ js "scope-test"
    ∷ js "stringify-object"
    ∷ js "test-wrap"
    ∷ []

-- The script's part for one test.
unfoldable pub test_part : TestHost → Str → Str
test_part h name = replace_all (js "$$TARGET_TEST") name (build h) ++ js "\n"

unfoldable pub test_parts : TestHost → List Str → Str
unfolding test_part
test_parts h [] = []
test_parts h (name ∷ names) = test_part h name ++ test_parts h names

-- The script that finds Visual Studio, on Windows.
windows_start : Str
windows_start =
    js "@echo off\nset target_env=vc2015\n@rem Set environment for msbuild\n"
    ++ (js "if defined target_env if \"%target_env%\" NEQ \"vc2015\" goto vc-set-2013\n"
        ++ (js "@rem Look for Visual Studio 2015\necho Looking for Visual Studio 2015\n"
            ++ (js "if not defined VS140COMNTOOLS goto vc-set-2013\n"
                ++ (js
                      "if not exist \"%VS140COMNTOOLS%\\..\\..\\vc\\vcvarsall.bat\" goto vc-set-2013\n"
                    ++ (js "echo Found Visual Studio 2015\nif \"%VCVARS_VER%\" NEQ \"140\" (\n"
                        ++ (js
                              "  call \"%VS140COMNTOOLS%\\..\\..\\vc\\vcvarsall.bat\"\n  SET VCVARS_VER=140\n"
                            ++ (js
                                  ")\nif not defined VCINSTALLDIR goto vc-set-2013\nset GYP_MSVS_VERSION=2015\n"
                                ++ (js
                                      "set PLATFORM_TOOLSET=v140\ngoto msbuild-found\n\n:vc-set-2013\n"
                                    ++ (js
                                          "if defined target_env if \"%target_env%\" NEQ \"vc2013\" goto msbuild-not-found\n"
                                        ++ (js
                                              "@rem Look for Visual Studio 2013\necho Looking for Visual Studio 2013\n"
                                            ++ (js
                                                  "if not defined VS120COMNTOOLS goto msbuild-not-found\n"
                                                ++ (js
                                                      "if not exist \"%VS120COMNTOOLS%\\..\\..\\vc\\vcvarsall.bat\" goto msbuild-not-found\n"
                                                    ++ (js
                                                          "echo Found Visual Studio 2013\nif \"%VCVARS_VER%\" NEQ \"120\" (\n"
                                                        ++ (js
                                                            "  call \"%VS120COMNTOOLS%\\..\\..\\vc\\vcvarsall.bat\"\n  SET VCVARS_VER=120\n"
                                                            ++ (js
                                                            ")\nif not defined VCINSTALLDIR goto msbuild-not-found\n"
                                                            ++ (js
                                                            "set GYP_MSVS_VERSION=2013\nset PLATFORM_TOOLSET=v120\ngoto msbuild-found\n\n"
                                                            ++ (js
                                                            ":msbuild-not-found\necho Failed to find Visual Studio installation.\nexit 1\n"
                                                            ++ (js
                                                            "\n:msbuild-found\n"))))))))))))))))))

start_of : TestHost → Str
unfolding windows_start
start_of h = if h.is_windows then windows_start else []

-- A single test may be named by `--file`.
all_parts : TestHost → Option ArgValue → Str
unfolding test_parts test_names
all_parts h none = test_parts h test_names
all_parts h (some v) = test_part h (to_text v)

-- The script that is written to build_test.bat.
unfoldable pub test_script : TestHost → Str
unfolding all_parts given start_of
test_script h =
    replace_all (js "$$TEST_BINARY") (given h.args (js "--target") (js "undefined"))
      (start_of h ++ all_parts h (lookup (js "--file") h.args))

-- How the file begins: `--help` exits with 0, a missing `--target` with 1.
pub data Check : Type 0 where
  exits : Bool → Check
  goes_on : Check

unfoldable pub check_args : TestHost → Check
check_args h =
    if has (js "--help") h.args
    then exits true
    else (if has (js "--target") h.args then goes_on else exits false)

-- The project files that are written on Windows, from their templates.
unfoldable pub project_file : TestHost → Str → Str
project_file h template = replace_all (js "$ARCH$") (get_arch h) (
    replace (js "$NODE_DISTRO$")
      (if str_eq (given h.args (js "--target") []) (js "jxcore") then js "jx" else js "node")
      template)

unfoldable pub solution_file : TestHost → Str → Str
solution_file h template = replace_all (js "$ARCH$") (get_arch h) template
