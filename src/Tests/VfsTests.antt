-- ===== src/Tests/VfsTests.antt =====
-- The files in the binary, run.
use node_apphost.Base.{
  Str, js, str_eq, Bool, false, Option, none, some, if◌then◌else◌, ◌≡◌, refl, [], ◌∷◌, ◌++◌, inr,
}
use node_apphost.Vfs.{
  FileData, Stats, value, Node, clean, stat_sync, path_of, realpath_sync, read_file_sync,
}
use node_apphost.Vfs.Table.{Utf8, Table, parent, define_files, with_table}
use node_apphost.Vfs.Table.Defined.{defined_file}

abbrev on_disk : Stats
on_disk = record { ino = 4; size = some 9; is_directory = false }

abbrev linked : Bool → FileData
linked b = record { ino = 100; length = 3; contents = if b then some (js "abc") else none }

abbrev table : Str → Bool → Option FileData
unfolding js str_eq
table name b = if str_eq name (js "m.js") then some (linked b) else none

abbrev node : Node
node = record {
  sep = b'/';
  exec_path = js "/bin/app";
  cwd = js "/w";
  relative = λ base path. path;
  make_long = λ path. path;
  get_file_data = table;
  orig_stat_sync = λ path. value on_disk;
  orig_read_file_sync = λ path. value (some (js "x"));
}

-- The same file and two more, defined by native code and found from the folder of the executable.
abbrev ascii : Utf8
ascii = record { encode = λ s. s; decode = λ s. s }

abbrev none_yet : Table
none_yet = record { inode_counter = 0; files = [] }

defined_file_example :
    let n' =
      with_table ascii
        (define_files false
          ((js "m.js", js "abc") ∷ (js "main.js", js "x = 1") ∷ (js "n.js", js "") ∷ [])
          none_yet)
        (record node { relative = λ base path. js "../" ++ path }) in
    (stat_sync n' (js "m.js") ≡ value (record { ino = 1; size = none; is_directory = false }))
    × (realpath_sync n' (js "m.js") ≡ value (path_of (js "m.js")))
    × (read_file_sync n' (js "m.js") ≡ value (some (js "abc")))
unfolding js str_eq clean parent
defined_file_example =
    defined_file ascii false (record node { relative = λ base path. js "../" ++ path }) (js "m.js")
      (js "../m.js") (js "m.js") (js "abc") ((js "main.js", js "x = 1") ∷ (js "n.js", js "") ∷ [])
      none_yet on_disk (inr refl) (refl, refl, (refl, refl, tt)) refl refl
