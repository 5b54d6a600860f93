-- ===== src/Build/Patches/Effects.antt =====
-- What the two patching tasks leave in the files.
use node_apphost.Base.{
  Str, js, [], ◌∷◌, Bool, false, ◌++◌, none, some, length, ◌<◌, ◌≡◌, ◌≢◌, refl, ◌∙◌, str_eq, arith,
}
use node_apphost.Base.Dict.{lookup, insert, lookup-insert_other}
use node_apphost.Base.Text.{Lacks}
use node_apphost.Base.Search.{
  replace, index_of, replace-absent, replace-occurs, length-replace, IsFirst,
}
use node_apphost.Taskman.Queue.{returns, exits}
use node_apphost.Build.Patches.{
  Files, done, quit, ◌>>=◌, ◌>>◌, same_length_exits, sources_mark, node_sources, jxcore_sources,
  patch_gyp, append_patch, patch_cc, patch_configure, include_line, patch_jxcore, patch_nodejs,
}
use node_apphost.Build.Patches.Braces.{include_wrapper-last}

jxcore_sources_longer : length sources_mark < length jxcore_sources
unfolding sources_mark jxcore_sources
jxcore_sources_longer = omega arith

node_sources_longer : length sources_mark < length node_sources
unfolding sources_mark node_sources
node_sources_longer = omega arith

jxcore_sources-Lacks : Lacks b'$' jxcore_sources
unfolding jxcore_sources
jxcore_sources-Lacks = omega arith

node_sources-Lacks : Lacks b'$' node_sources
unfolding node_sources
node_sources-Lacks = omega arith

same_length_quits : (t : Str) (s : Files) → same_length_exits t t s ≡ quit 1 s
unfolding same_length_exits
same_length_quits t s = ground arith

other_length_passes :
    (t u : Str) (s : Files) → length t ≢ length u → same_length_exits t u s ≡ done tt s
unfolding same_length_exits
other_length_passes t u s h = ground arith

-- `text` with the first mark in it, which has no other to its left, replaced by `sources`.
abbrev pub IsPatched : Str → Str → Str → Type 0
IsPatched sources text patched =
    (left : Str) × (right : Str) × (text ≡ left ++ (sources_mark ++ right))
    × (patched ≡ left ++ (sources ++ right))
    × IsFirst sources_mark text left

-- For a file jx.gyp without the mark the task `patch_jxcore` ends the process with 1, and nothing has
-- been written.
pub patch_jxcore_refuses :
    (s : Files) (gyp : Str)
    → lookup (js "./jxcore/jx.gyp") s ≡ some gyp
    → index_of sources_mark gyp ≡ none
    → patch_jxcore s ≡ exits 1 s
unfolding patch_jxcore
patch_jxcore_refuses s gyp h absent =
    rw (h, ◌>>=◌, replace-absent sources_mark jxcore_sources gyp absent, same_length_quits gyp s)

-- For a file jx.gyp that holds the mark the task `patch_jxcore` returns: the first mark has given way
-- to the mark and the wrapper's source behind it, and no other file has changed.
pub patch_jxcore_lem :
    (s : Files) (gyp : Str)
    → lookup (js "./jxcore/jx.gyp") s ≡ some gyp
    → index_of sources_mark gyp ≢ none
    → (patched : Str) × IsPatched jxcore_sources gyp patched
      × (patch_jxcore s ≡ returns (insert (js "./jxcore/jx.gyp") patched s))
unfolding patch_jxcore
patch_jxcore_lem s gyp h occurs =
    let longer =
      length-replace sources_mark jxcore_sources gyp jxcore_sources-Lacks jxcore_sources_longer
        occurs in
    (
      replace sources_mark jxcore_sources gyp,
      replace-occurs sources_mark jxcore_sources gyp jxcore_sources-Lacks occurs,
      rw (h, ◌>>=◌, other_length_passes _ gyp s longer),
    )

patch_gyp-absent :
    (w : Bool) (s : Files) (gyp : Str)
    → lookup (js "./nodejs/node.gyp") s ≡ some gyp
    → index_of sources_mark gyp ≡ none
    → patch_gyp w s ≡ quit 1 s
unfolding patch_gyp
patch_gyp-absent w s gyp h absent = rw (
  h,
  ◌>>=◌,
  replace-absent sources_mark node_sources gyp absent,
  ◌>>◌,
  ◌>>=◌,
  same_length_quits gyp s,
)

patch_gyp-occurs :
    (s : Files) (gyp : Str)
    → lookup (js "./nodejs/node.gyp") s ≡ some gyp
    → index_of sources_mark gyp ≢ none
    → patch_gyp false s
      ≡ done tt (insert (js "./nodejs/node.gyp") (replace sources_mark node_sources gyp) s)
unfolding patch_gyp
patch_gyp-occurs s gyp h occurs =
    let longer =
      length-replace sources_mark node_sources gyp node_sources-Lacks node_sources_longer occurs in
    rw (h, ◌>>=◌, ◌>>◌, ◌>>=◌, other_length_passes _ gyp s longer)

append_patch_lem :
    (patch library p l : Str) (s : Files)
    → lookup patch s ≡ some p
    → lookup library s ≡ some l
    → append_patch patch library s ≡ done tt (insert library (l ++ (js "\n" ++ p)) s)
unfolding append_patch
append_patch_lem patch library p l s hp hl = rw (hp, ◌>>=◌, hl)

patch_cc_lem :
    (s : Files) (left right : Str)
    → lookup (js "./nodejs/src/node.cc") s ≡ some (left ++ b'}' ∷ right)
    → left ≢ []
    → Lacks b'}' right
    → patch_cc s
      ≡ done tt (insert (js "./nodejs/src/node.cc") (left ++ (include_line ++ b'}' ∷ right)) s)
unfolding patch_cc
patch_cc_lem s left right h some_left lacks =
    rw (h, ◌>>=◌, include_wrapper-last left right some_left lacks)

-- On every system, the task `patch_nodejs` ends the process with 1 if node.gyp does not hold the
-- mark, and nothing has been written.
pub patch_nodejs_refuses :
    (w : Bool) (s : Files) (gyp : Str)
    → lookup (js "./nodejs/node.gyp") s ≡ some gyp
    → index_of sources_mark gyp ≡ none
    → patch_nodejs w s ≡ exits 1 s
unfolding patch_nodejs
patch_nodejs_refuses w s gyp h absent = rw (patch_gyp-absent w s gyp h absent, ◌>>=◌, ◌>>◌)

-- A file is still there behind writes to others.
past_1 :
    (s : Files) (v k t : Str)
    → str_eq (js "./nodejs/node.gyp") k ≡ false
    → lookup k s ≡ some t
    → lookup k (insert (js "./nodejs/node.gyp") v s) ≡ some t
past_1 s v k t a h = lookup-insert_other (js "./nodejs/node.gyp") k v s a ∙ h

past_2 :
    (s : Files) (v w k t : Str)
    → str_eq (js "./nodejs/node.gyp") k ≡ false
    → str_eq (js "./nodejs/src/node.cc") k ≡ false
    → lookup k s ≡ some t
    → lookup k (insert (js "./nodejs/src/node.cc") w (insert (js "./nodejs/node.gyp") v s)) ≡ some t
past_2 s v w k t a b h =
    lookup-insert_other (js "./nodejs/src/node.cc") k w _ b ∙ past_1 s v k t a h

-- Off Windows, where the six files are there, node.gyp holds the mark, and node.cc is some text that
-- is not empty, a closing brace, and a rest without one, the task returns. The first mark in
-- node.gyp has given way to the mark with the wrapper's sources, the include line stands in node.cc
-- directly before that last brace, the two libraries have their patches appended behind a line
-- feed, and every other file is as before.
pub patch_nodejs_lem :
    (s : Files) (gyp left right module_patch module_js fs_patch fs_js : Str)
    → lookup (js "./nodejs/node.gyp") s ≡ some gyp
    → lookup (js "./nodejs/src/node.cc") s ≡ some (left ++ b'}' ∷ right)
    → lookup (js "patch/node/module_patch.js") s ≡ some module_patch
    → lookup (js "./nodejs/lib/module.js") s ≡ some module_js
    → lookup (js "patch/node/fs_patch.js") s ≡ some fs_patch
    → lookup (js "./nodejs/lib/fs.js") s ≡ some fs_js
    → index_of sources_mark gyp ≢ none
    → left ≢ []
    → Lacks b'}' right
    → (gyp' : Str) × IsPatched node_sources gyp gyp'
      × (patch_nodejs false s
          ≡ returns (
              insert (js "./nodejs/lib/fs.js") (fs_js ++ (js "\n" ++ fs_patch)) (
                insert (js "./nodejs/lib/module.js") (module_js ++ (js "\n" ++ module_patch)) (
                  insert
                    (js "./nodejs/src/node.cc")
                    (left ++ (include_line ++ b'}' ∷ right))
                    (insert (js "./nodejs/node.gyp") gyp' s)))))
unfolding patch_nodejs patch_configure
patch_nodejs_lem s gyp left right module_patch module_js fs_patch fs_js h1 h2 h3 h4 h5 h6 occurs
      some_left lacks =
    let text' : Str = left ++ (include_line ++ b'}' ∷ right) in
    let gyp' = replace sources_mark node_sources gyp in
    let s1 : Files = insert (js "./nodejs/node.gyp") gyp' s in
    let s2 : Files = insert (js "./nodejs/src/node.cc") text' s1 in
    let s3 : Files =
      insert (js "./nodejs/lib/module.js") (module_js ++ (js "\n" ++ module_patch)) s2 in
    let e2 =
      patch_cc_lem s1 left right
        (past_1 s gyp' (js "./nodejs/src/node.cc") (left ++ b'}' ∷ right) (unfold js str_eq in refl)
          h2)
        some_left lacks in
    let e3 =
      append_patch_lem (js "patch/node/module_patch.js") (js "./nodejs/lib/module.js") module_patch
        module_js s2
        (past_2 s gyp' text' (js "patch/node/module_patch.js") module_patch
          (unfold js str_eq in refl) (unfold js str_eq in refl) h3)
        (past_2 s gyp' text' (js "./nodejs/lib/module.js") module_js (unfold js str_eq in refl)
          (unfold js str_eq in refl) h4) in
    let e4 =
      append_patch_lem (js "patch/node/fs_patch.js") (js "./nodejs/lib/fs.js") fs_patch fs_js s3
        (lookup-insert_other (js "./nodejs/lib/module.js") (js "patch/node/fs_patch.js") _ s2
            (unfold js str_eq in refl)
          ∙ past_2 s gyp' text' (js "patch/node/fs_patch.js") fs_patch (unfold js str_eq in refl)
              (unfold js str_eq in refl) h5)
        (lookup-insert_other (js "./nodejs/lib/module.js") (js "./nodejs/lib/fs.js") _ s2
            (unfold js str_eq in refl)
          ∙ past_2 s gyp' text' (js "./nodejs/lib/fs.js") fs_js (unfold js str_eq in refl)
              (unfold js str_eq in refl) h6) in
    (
      gyp',
      replace-occurs sources_mark node_sources gyp node_sources-Lacks occurs,
      rw (patch_gyp-occurs s gyp h1 occurs, ◌>>=◌, ◌>>◌) (rw e2 (rw e3 (rw e4))),
    )
