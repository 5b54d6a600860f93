-- ===== src/Taskman/Args.antt =====
-- What the parsed command line holds under each key.
use node_apphost.Base.{
  Str, js, str_eq, str_eq_iff, str_eq_refl, List, [], ◌∷◌, ◌++◌, Option, none, some, if◌then◌else◌,
  ◌≡◌, ◌≢◌, refl, arith,
}
use node_apphost.Base.Text.{split_on, Lacks, split_on-Lacks, split_on-append}
use node_apphost.Base.Dict.{Dict, lookup, lookup-insert}
use node_apphost.Taskman.{
  ArgValue, text, strip_quotes, key_of, value_of, add_arg, add_args, parse_args,
}

-- The value that the last argument with the key gives it.
abbrev or_else : Option ArgValue → Option ArgValue → Option ArgValue
or_else none o = o
or_else (some v) o = some v

abbrev given_by : Str → Str → Option ArgValue
given_by k arg =
    let a = split_on b'=' arg in if str_eq (key_of a) k then some (value_of a) else none

abbrev pub last_given : Str → List Str → Option ArgValue
last_given k [] = none
last_given k (arg ∷ argv) = or_else (last_given k argv) (given_by k arg)

lookup-add_arg :
    (k : Str) (args : Dict ArgValue) (arg : Str)
    → k ≢ js "__proto__"
    → lookup k (add_arg args arg) ≡ or_else (given_by k arg) (lookup k args)
unfolding add_arg
lookup-add_arg k args arg h =
    let a = split_on b'=' arg in
    ground (
      arith,
      lookup-insert (key_of a) k (value_of a) args,
      str_eq_iff (key_of a) (js "__proto__"),
      str_eq_iff (key_of a) k,
    )

lookup-add_args :
    (k : Str) (args : Dict ArgValue) (argv : List Str)
    → k ≢ js "__proto__"
    → lookup k (add_args args argv) ≡ or_else (last_given k argv) (lookup k args)
unfolding add_args
lookup-add_args k args [] h = refl
lookup-add_args k args (arg ∷ argv) h =
    ground (arith, lookup-add_args k (add_arg args arg) argv h, lookup-add_arg k args arg h)

-- Under every key but `__proto__` the parsed command line holds what the last argument with that
-- key gives it, and nothing if no argument behind the executable and the script has the key.
pub lookup-parse_args :
    (node script k : Str) (argv : List Str)
    → k ≢ js "__proto__"
    → lookup k (parse_args (node ∷ script ∷ argv)) ≡ last_given k argv
unfolding parse_args lookup
lookup-parse_args node script k argv h = ground (arith, lookup-add_args k [] argv h)

strip_quotes-Lacks : (k : Str) → Lacks b'"' k → strip_quotes k ≡ k
unfolding strip_quotes
strip_quotes-Lacks [] h = refl
strip_quotes-Lacks (c ∷ k) (h, hs) = ground (arith, strip_quotes-Lacks k hs)

-- An option `key=value`, given last, is read back whole: the key has no `=` and no quote and is
-- not `__proto__`, and the value has no `=`.
pub parse_args-option :
    (node script k v : Str)
    → Lacks b'=' k
    → Lacks b'"' k
    → Lacks b'=' v
    → k ≢ js "__proto__"
    → lookup k (parse_args (node ∷ script ∷ (k ++ b'=' ∷ v) ∷ [])) ≡ some (text v)
unfolding key_of value_of
parse_args-option node script k v hk hq hv hp = rw (
  lookup-parse_args node script k ((k ++ b'=' ∷ v) ∷ []) hp,
  split_on-append b'=' k v hk,
  split_on-Lacks b'=' v hv,
  strip_quotes-Lacks k hq,
  str_eq_refl k,
)

-- What follows a second `=` is lost: the option `key=value=more` reads as `key=value` does.
pub parse_args_truncates :
    (node script k v more : Str)
    → Lacks b'=' k
    → Lacks b'"' k
    → Lacks b'=' v
    → k ≢ js "__proto__"
    → lookup k (parse_args (node ∷ script ∷ (k ++ b'=' ∷ (v ++ b'=' ∷ more)) ∷ [])) ≡ some (text v)
unfolding key_of value_of
parse_args_truncates node script k v more hk hq hv hp = rw (
  lookup-parse_args node script k ((k ++ b'=' ∷ (v ++ b'=' ∷ more)) ∷ []) hp,
  split_on-append b'=' k (v ++ b'=' ∷ more) hk,
  split_on-append b'=' v more hv,
  strip_quotes-Lacks k hq,
  str_eq_refl k,
)
