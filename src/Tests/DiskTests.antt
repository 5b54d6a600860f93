-- ===== src/Tests/DiskTests.antt =====
-- The disk of a build, run.
use node_apphost.Base.{is_in, js, str_eq, true, false, [], ◌∷◌, ◌++◌, some, ◌≡◌, inr, refl, All}
use node_apphost.Base.Dict.{has}
use node_apphost.Build.{Settings}
use node_apphost.Build.Main.{batch_files}
use node_apphost.Build.Disk.{Disk, System, is_folder, on_disk, mkdir, make_temp, create_batch}
use node_apphost.Build.Disk.Runnable.{Runnable, create_batch_lem}

-- Every path stands in the folder `./temp`, and folders can be made.
abbrev linux : System
linux = record {
  host = record {
    is_windows = false;
    args = [];
    cpus = js "4";
    dirname = js "/h";
    sep = b'/' ∷ [];
    join = λ a b. a ++ b'/' ∷ b;
    resolve = λ p. p;
  };
  parent = λ p. js "./temp";
  may_create = λ p. true;
}

abbrev blank : Disk
blank = record { folders = []; files = []; executable = [] }

abbrev st : Settings
st = record {
  platform = js "desktop";
  forced_target = some (js "nodejs");
  release = false;
  cpu = js "--dest-cpu=x64";
}

create_batch_lem_example :
    (d' : Disk) × (create_batch linux (js "make") st blank ≡ some d')
    × All (Runnable linux d') (batch_files linux.host (js "make") st)
unfolding js make_temp mkdir on_disk is_folder is_in has str_eq batch_files
create_batch_lem_example = create_batch_lem linux (js "make") st blank refl (inr (refl, refl)) (
  refl,
  refl,
  (refl, (refl, (refl, (refl, tt)))),
  (
    refl,
    refl,
    (refl, (refl, (refl, tt))),
    (refl, refl, (refl, (refl, tt)), (refl, refl, (refl, tt), (refl, refl, tt, tt))),
  ),
)
