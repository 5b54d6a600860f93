-- ===== src/Taskman.antt =====
-- tools/taskman.js: the command line as a dictionary, and the shell commands of a build.
-- `path.resolve` and `fs.existsSync` belong to Node and are arguments here.
pub mod Args
pub mod Queue
use node_apphost.Base.{
  Str, js, str_eq, Bool, List, [], ◌∷◌, ◌++◌, Option, none, some, if◌then◌else◌, ◌==◌, drop, ℕ,
}
use node_apphost.Base.Text.{split_on}
use node_apphost.Base.Dict.{Dict, insert}

-- `--flag` stores the number 1, `--key=value` the text.
pub data ArgValue : Type 0 where
  text : Str → ArgValue
  one : ArgValue

-- `"" + value`.
unfoldable pub to_text : ArgValue → Str
unfolding js
to_text (text s) = s
to_text one = js "1"

-- `s.replace(/"/g, "")`.
unfoldable pub strip_quotes : Str → Str
strip_quotes [] = []
strip_quotes (c ∷ s) = if c == b'"' then strip_quotes s else c ∷ strip_quotes s

unfoldable pub key_of : List Str → Str
key_of [] = []
key_of (k ∷ _) = strip_quotes k

unfoldable pub value_of : List Str → ArgValue
value_of (_ ∷ v ∷ _) = text v
value_of _ = one

-- `args[key] = value`: an assignment to `__proto__` of what is no object does nothing.
assign : Str → ArgValue → Dict ArgValue → Dict ArgValue
assign k v args = if str_eq k (js "__proto__") then args else insert k v args

-- One round of the loop over `process.argv`.
add_arg : Dict ArgValue → Str → Dict ArgValue
unfolding key_of value_of assign
add_arg args arg = let a = split_on b'=' arg in assign (key_of a) (value_of a) args

add_args : Dict ArgValue → List Str → Dict ArgValue
add_args args [] = args
add_args args (arg ∷ argv) = add_args (add_arg args arg) argv

-- The loop starts at index 2, behind the executable and the script.
unfoldable pub parse_args : List Str → Dict ArgValue
unfolding add_args add_arg
parse_args argv = add_args [] (drop 2 argv)

-- `rmdir` answers `undefined` for a folder that is not there.
unfoldable pub rmdir : Bool → (Str → Bool) → (Str → Str) → Str → Option Str
rmdir is_windows exists_sync resolve f =
    if exists_sync f
    then some ((if is_windows then js "RD /S /Q " else js "rm -rf ") ++ resolve f)
    else none

unfoldable pub clone : Str → Str → Str
clone repo target = js "git clone " ++ (repo ++ (js " " ++ target))

unfoldable pub checkout : Str → Str → Str
checkout repo id = js "cd " ++ (repo ++ (js "\ngit checkout " ++ id))
