-- ===== src/Wrapper/Natives/Script.antt =====
-- patch/node/node_wrapper.cc: the script of `DeclareProxy`.
use node_apphost.Base.{ℕ, ◌+◌, ◌<◌, Str, js, ◌++◌, ◌≡◌, true, arith, length, length-append, ltb}
use node_apphost.Base.Decimal.{decimal, length-decimal}

-- Its parts between the names and the number.
target_host : Str
target_host = js "(function(target, host) {\n  host."

array_of : Str
array_of = js " = function() {\n    var arr = [];\n    arr[0] = "

arguments_of : Str
arguments_of =
    js ";\n    for (var i=0,ln=arguments.length; i<ln; i++) {\n"
    ++ js "      arr[i+1] = arguments[i];\n    }\n    return host."

applied : Str
applied = js ".ref.apply(null, arr);\n  };\n  host."

ref_of : Str
ref_of = js ".ref = target."

last_line : Str
last_line = js ";\n})"

unfoldable pub proxy_script : Str → ℕ → Str
unfolding target_host array_of arguments_of applied ref_of last_line
proxy_script name id =
    target_host
    ++ name
    ++ array_of
    ++ decimal id
    ++ arguments_of
    ++ name
    ++ applied
    ++ name
    ++ ref_of
    ++ name
    ++ last_line

fixed_parts :
    length target_host
      + (length array_of
          + (length arguments_of + (length applied + (length ref_of + length last_line))))
    < 300
unfolding js target_host array_of arguments_of applied ref_of last_line
fixed_parts = omega arith

-- The buffer of 2048 bytes is large enough for every number of the table and every name of fewer than
-- 400 bytes.
pub length-proxy_script :
    (name : Str) (id : ℕ)
    → length name < 400
    → id < 1024
    → ltb (length (proxy_script name id)) 2048 ≡ true
unfolding proxy_script
length-proxy_script name id h k =
    let d : length (decimal id) < 104 = omega (arith, length-decimal id) in
    let f = fixed_parts in grind (arith, length-append)
