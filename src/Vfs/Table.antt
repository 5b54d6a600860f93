-- ===== src/Vfs/Table.antt =====
-- patch/node/node_vfile.cc: the native table of the files that are linked into the binary, and
-- `JS_DefineMainFile` and `JS_DefineFile` of patch/node/node_wrapper.cc. Names and contents are
-- bytes. V8's conversions between bytes and strings are the fields of `Utf8`.
pub mod Defined
pub mod Numbers
use node_apphost.Base.{
  ℕ, suc, Str, js, Bool, true, false, List, [], ◌∷◌, ◌++◌, Option, none, some, if◌then◌else◌,
  length,
}
use node_apphost.Base.Dict.{Dict, lookup, insert}
use node_apphost.Vfs.{FileData, Node}

-- `STRING_TO_STD` and `UTF8_TO_STRING`.
pub record Utf8 : Type 0 where
  pub encode : Str → Str
  pub decode : Str → Str

-- `struct VFile`.
pub record VFile : Type 0 where
  pub ino : ℕ
  pub size : ℕ
  pub contents : Str

-- `VFile::inode_counter` and `files`.
pub record Table : Type 0 where
  pub inode_counter : ℕ
  pub files : Dict VFile

unfoldable pub parent : Bool → Str
unfolding js
parent windows = if windows then js "..\\" else js "../"

-- `AddFile`: two names for one file.
unfoldable pub add_file : Bool → Str → Str → ℕ → Table → Table
unfolding parent
add_file windows path contents size t =
    let vf : VFile = record { ino = suc t.inode_counter; size = size; contents = contents } in
    record {
      inode_counter = suc t.inode_counter;
      files = insert (parent windows ++ path) vf (insert path vf t.files);
    }

-- `GetFile`.
unfoldable pub get_file : Str → Table → Option VFile
get_file path t = lookup path t.files

-- An argument from JavaScript.
pub data FileArg : Type 0 where
  string : Str → FileArg
  boolean : Bool → FileArg
  other : FileArg

asks_contents : List FileArg → Bool
asks_contents (_ ∷ boolean b ∷ []) = b
asks_contents _ = false

pub data_of : Utf8 → Bool → Option VFile → Option FileData
data_of u with_contents none = none
data_of u with_contents (some vf) = some (record {
  ino = vf.ino;
  length = vf.size;
  contents = if with_contents then some (u.decode vf.contents) else none;
})

-- `GetFileData`; `none` is `undefined`.
unfoldable pub get_file_data : Utf8 → Table → List FileArg → Option FileData
unfolding get_file asks_contents data_of
get_file_data u t (string path ∷ args) =
    data_of u (asks_contents (string path ∷ args)) (get_file (u.encode path) t)
get_file_data u t _ = none

-- What `GetVFile` of fs_patch.js passes: `get_contents` is true or undefined.
unfoldable pub vfile_args : Str → Bool → List FileArg
vfile_args file get_contents = string file ∷ (if get_contents then boolean true else other) ∷ []

-- The process whose binding `node_wrap_vfile` has this table.
unfoldable pub with_table : Utf8 → Table → Node → Node
unfolding get_file_data vfile_args
with_table u t n = record n { get_file_data = λ file b. get_file_data u t (vfile_args file b) }

-- `JS_DefineFile`; a C string has no byte 0.
unfoldable pub define_file : Bool → Str → Str → Table → Table
unfolding add_file
define_file windows name file t = add_file windows name file (length file) t

-- `JS_DefineMainFile`.
unfoldable pub define_main_file : Bool → Str → Table → Table
unfolding add_file
define_main_file windows data_ t = add_file windows (js "main.js") data_ (length data_) t

-- Definitions, in their order.
unfoldable pub define_files : Bool → List (Str × Str) → Table → Table
unfolding define_file
define_files windows [] t = t
define_files windows ((name, file) ∷ more) t =
    define_files windows more (define_file windows name file t)
