-- ===== src/Vfs/Cache.antt =====
-- The cache of the module loader's `stat`.
use node_apphost.Base.{Str, none, some, ◌≡◌, ◌≢◌, refl, arith}
use node_apphost.Base.Dict.{Dict, lookup, insert, lookup-insert_self}
use node_apphost.Vfs.{Stats, value, Node, stat_sync, object, code_of, stat}

first_stat :
    (n : Node) (filename : Str) (m : Dict Stats) (s : Stats)
    → lookup (n.make_long filename) m ≡ none
    → stat_sync n (n.make_long filename) ≡ value s
    → stat n filename (some m) ≡ (code_of s, some (insert (n.make_long filename) s m))
unfolding stat
first_stat n filename m s h e = rw (h, e)

second_stat :
    (n : Node) (filename : Str) (m : Dict Stats) (s : Stats)
    → (stat n filename (some (insert (n.make_long filename) s m))).0 ≡ object s
unfolding stat
second_stat n filename m s = rw (lookup-insert_self (n.make_long filename) s m)

object_ne_code : (s : Stats) → object s ≢ code_of s
object_ne_code s e = ground arith

-- With a cache that does not hold the file yet, the first call answers 0 or 1; the next call
-- answers the stat object, so that the two answers differ for every file that exists.
pub stat_cached_differs :
    (n : Node) (filename : Str) (m : Dict Stats) (s : Stats)
    → lookup (n.make_long filename) m ≡ none
    → stat_sync n (n.make_long filename) ≡ value s
    → let r = stat n filename (some m) in
      (r.0 ≡ code_of s) × ((stat n filename r.1).0 ≡ object s) × ((stat n filename r.1).0 ≢ r.0)
stat_cached_differs n filename m s h e =
    rw (first_stat n filename m s h e)
      (refl, second_stat n filename m s, rw (second_stat n filename m s) (object_ne_code s))
