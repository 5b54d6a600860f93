-- ===== src/Vfs/Table/Numbers.antt =====
-- Which numbers the files of the native table have.
use node_apphost.Base.{
  ℕ, suc, ◌≤◌, ◌<◌, Str, str_eq, Bool, List, [], ◌∷◌, ◌++◌, some, if◌then◌else◌, length, arith, ◌≡◌,
  ◌⊎◌, inl, inr, refl, Bool-cases,
}
use node_apphost.Base.Dict.{lookup-insert}
use node_apphost.Vfs.Table.{VFile, Table, parent, add_file, get_file, define_file, define_files}

-- Every file has a number that was given, and two names with one number are names of one file.
abbrev pub IsNumbered : Table → Type 0
IsNumbered t =
    (p q : Str) (f g : VFile)
    → get_file p t ≡ some f
    → get_file q t ≡ some g
    → (0 < f.ino) × (f.ino ≤ t.inode_counter) × (f.ino ≡ g.ino → f ≡ g)

-- The file that `add_file` makes.
abbrev pub made : Str → ℕ → Table → VFile
made contents size t = record { ino = suc t.inode_counter; size = size; contents = contents }

pub get_file-add_file :
    (windows : Bool) (path contents : Str) (size : ℕ) (t : Table) (p : Str)
    → get_file p (add_file windows path contents size t) ≡ (
        if str_eq (parent windows ++ path) p
        then some (made contents size t)
        else (if str_eq path p then some (made contents size t) else get_file p t))
unfolding add_file get_file
get_file-add_file windows path contents size t p = rw (
  lookup-insert (parent windows ++ path) p (made contents size t) _,
  lookup-insert path p (made contents size t) t.files,
)

-- A file of the new table is the new one or an old one.
old_or_new :
    (windows : Bool) (path contents : Str) (size : ℕ) (t : Table) (p : Str) (f : VFile)
    → get_file p (add_file windows path contents size t) ≡ some f
    → (f ≡ made contents size t) ⊎ (get_file p t ≡ some f)
old_or_new windows path contents size t p f h =
    let e = get_file-add_file windows path contents size t p in
    elim (Bool-cases (str_eq (parent windows ++ path) p)) [
      | inl a ↦ inl (ground (arith))
      | inr a ↦ elim (Bool-cases (str_eq path p)) [
        | inl b ↦ inl (ground (arith))
        | inr b ↦ inr (ground (arith))
      ]
    ]

abbrev OneOf : VFile → Str → Table → VFile → Type 0
OneOf new p t f = (f ≡ new) ⊎ (get_file p t ≡ some f)

numbered_pair :
    (contents : Str) (size : ℕ) (t : Table) (p q : Str) (f g : VFile)
    → IsNumbered t
    → OneOf (made contents size t) p t f
    → OneOf (made contents size t) q t g
    → (0 < f.ino) × (f.ino ≤ suc t.inode_counter) × (f.ino ≡ g.ino → f ≡ g)
numbered_pair contents size t p q f g h (inl a) (inl b) =
    rw (a, b) (omega arith, omega arith, λ _. refl)
numbered_pair contents size t p q f g h (inl a) (inr b) =
    let (low, high, _) = h q q g g b b in rw a (omega arith, omega arith, λ e. absurd (omega arith))
numbered_pair contents size t p q f g h (inr a) (inl b) =
    let (low, high, _) = h p p f f a a in rw b (low, omega arith, λ e. absurd (omega arith))
numbered_pair contents size t p q f g h (inr a) (inr b) =
    let (low, high, one) = h p q f g a b in (low, omega arith, one)

pub add_file-IsNumbered :
    (windows : Bool) (path contents : Str) (size : ℕ) (t : Table)
    → IsNumbered t
    → IsNumbered (add_file windows path contents size t)
add_file-IsNumbered windows path contents size t h p q f g hf hg =
    unfold add_file in
    numbered_pair contents size t p q f g h (old_or_new windows path contents size t p f hf)
      (old_or_new windows path contents size t q g hg)

-- Whatever files native code defines, also under names that were taken, every name in the table
-- has a file with a number from 1 to the counter, and two names have the same number only if they
-- are names of the same file.
pub define_files-IsNumbered :
    (windows : Bool) (defs : List (Str × Str)) (t : Table)
    → IsNumbered t
    → IsNumbered (define_files windows defs t)
unfolding define_files define_file
define_files-IsNumbered windows [] t h = h
define_files-IsNumbered windows ((name, file) ∷ more) t h =
    define_files-IsNumbered windows more _ (add_file-IsNumbered windows name file (length file) t h)
