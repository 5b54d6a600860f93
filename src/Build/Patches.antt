-- ===== src/Build/Patches.antt =====
-- build.js, `patch_nodejs` and `patch_jxcore`: the edits of the cloned sources before they are
-- compiled. The files are a dictionary from paths to contents.
pub mod Braces
pub mod Effects
use node_apphost.Base.{
  ℕ, zero, suc, ◌-◌, Str, js, Bool, true, false, List, [], ◌∷◌, ◌++◌, Option, none, some,
  if◌then◌else◌, ◌==◌, length, take, drop,
}
use node_apphost.Base.Dict.{Dict, lookup, insert}
use node_apphost.Base.Search.{replace, replace_all}
use node_apphost.Taskman.Queue.{Call, returns, exits, throws}

abbrev pub Files : Type 0
Files = Dict Str

-- A step returns, exits the process, or throws, and leaves the files in some state.
pub data Fx (A : Type 0) : Type 0 where
  done : A → Files → Fx A
  quit : ℕ → Files → Fx A
  fault : Files → Fx A

abbrev pub F : Type 0 → Type 0
F A = Files → Fx A

infixl 5 ◌>>=◌ ◌>>◌
abbrev pub ◌>>=◌ : {A B : Type 0} → F A → (A → F B) → F B
◌>>=◌ m f s = elim (m s) [ done a s' ↦ f a s' | quit n s' ↦ quit n s' | fault s' ↦ fault s' ]

abbrev pub ◌>>◌ : {A B : Type 0} → F A → F B → F B
◌>>◌ m k = m >>= λ _. k

abbrev pub pure : {A : Type 0} → A → F A
pure a s = done a s

-- `fs.readFileSync(path) + ""` throws where there is no file.
unfoldable pub read : Str → F Str
read path s = elim (lookup path s) [ none ↦ fault s | some t ↦ done t s ]

-- `fs.writeFileSync(path, contents)`.
unfoldable pub write : Str → Str → F (Unit {0})
write path contents s = done tt (insert path contents s)

-- `if (after.length == before.length) process.exit(1)`.
unfoldable pub same_length_exits : Str → Str → F (Unit {0})
same_length_exits after before s = if length after == length before then quit 1 s else done tt s

-- The literals of `patch_nodejs`.
unfoldable pub sources_mark : Str
unfolding js
sources_mark = js "'sources': ["

unfoldable pub node_sources : Str
unfolding js
node_sources = js "'sources': [\n'../patch/node/node_vfile.cc',\n'../patch/node/node_wrapper.cc',\n"

unfoldable pub shared_mark : Str
unfolding js
shared_mark = js "[ 'node_shared==\"false\"', {"

msvs_settings : Str
msvs_settings =
    js "['node_shared==\"true\"',{'msvs_settings':{'VCCLCompilerTool':{'RuntimeLibrary': 3}}}],\n"
    ++ js "[ 'node_shared==\"false\"', {"

-- The part of the first block under `if (isWindows)`.
windows_gyp : Str → F Str
unfolding msvs_settings
windows_gyp gyp = do
  let loadable = replace_all (js "shared_library") (js "loadable_module") gyp
  let patched = replace shared_mark msvs_settings loadable
  same_length_exits patched loadable
  pure (
      replace_all (js "node_module_version!=\"\"") (js "node_module_version!=\"\" and OS!=\"win\"")
        patched)

-- The block `patching node.gyp`.
unfoldable pub patch_gyp : Bool → F (Unit {0})
unfolding read write windows_gyp
patch_gyp is_windows = do
  gyp ← read (js "./nodejs/node.gyp")
  let patched = replace sources_mark node_sources gyp
  same_length_exits patched gyp
  result ← if is_windows then windows_gyp patched else pure patched
  write (js "./nodejs/node.gyp") result

-- The block `patching configure`, on Windows.
unfoldable pub patch_configure : Bool → F (Unit {0})
unfolding read write
patch_configure is_windows =
    if is_windows
    then (do
      configure ← read (js "./nodejs/configure")
      write (js "./nodejs/configure") (replace (js "b(options.shared)") (js "'true'") configure))
    else pure tt

-- `text[n]`.
unfoldable pub char_at : Str → ℕ → Option ℕ
char_at [] n = none
char_at (c ∷ s) zero = some c
char_at (c ∷ s) (suc n) = char_at s n

unfoldable pub is_brace : Option ℕ → Bool
is_brace none = false
is_brace (some c) = c == b'}'

-- The loop `for (n = length - 1; n > 0; n--)` until a closing brace, from a given n on.
unfoldable pub brace_from : Str → ℕ → Option ℕ
unfolding is_brace char_at
brace_from text zero = none
brace_from text (suc n) =
    let earlier = brace_from text n in
    if is_brace (char_at text (suc n)) then some (suc n) else earlier

unfoldable pub include_line : Str
include_line = js "\n#include \"../../patch/node/node_internal_wrapper.cc\"\n"

with_include : Str → Option ℕ → Option Str
unfolding include_line
with_include text none = none
with_include text (some n) = some (take n text ++ (include_line ++ drop n text))

-- What is written to node.cc, if anything is.
unfoldable pub include_wrapper : Str → Option Str
unfolding with_include brace_from
include_wrapper text = with_include text (brace_from text (length text - 1))

write_if : Str → Option Str → F (Unit {0})
write_if path none = pure tt
write_if path (some t) = write path t

-- The block `patching node.cc`.
unfoldable pub patch_cc : F (Unit {0})
unfolding read write write_if
patch_cc = do
  text ← read (js "./nodejs/src/node.cc")
  write_if (js "./nodejs/src/node.cc") (include_wrapper text)

-- The blocks `patching module.js` and `patching fs.js` append a file to a library of Node.
unfoldable pub append_patch : Str → Str → F (Unit {0})
unfolding read write
append_patch patch library = do
  patch_text ← read patch
  library_text ← read library
  write library (library_text ++ (js "\n" ++ patch_text))

to_call : Fx (Unit {0}) → Call Files
to_call (done _ s) = returns s
to_call (quit n s) = exits n s
to_call (fault s) = throws s

-- `patch_nodejs`, as a task.
unfoldable pub patch_nodejs : Bool → Files → Call Files
unfolding to_call
patch_nodejs is_windows s = to_call (
    (patch_gyp is_windows
        >> patch_configure is_windows
        >> patch_cc
        >> append_patch (js "patch/node/module_patch.js") (js "./nodejs/lib/module.js")
        >> append_patch (js "patch/node/fs_patch.js") (js "./nodejs/lib/fs.js"))
      s)

unfoldable pub jxcore_sources : Str
unfolding js
jxcore_sources = js "'sources': [\n'../patch/jxcore/jxcore_wrapper.cc',\n"

-- `patch_jxcore`, as a task.
unfoldable pub patch_jxcore : Files → Call Files
unfolding to_call read write
patch_jxcore s = to_call (
    (do
      gyp ← read (js "./jxcore/jx.gyp")
      let patched = replace sources_mark jxcore_sources gyp
      same_length_exits patched gyp
      write (js "./jxcore/jx.gyp") patched)
      s)
