-- ===== src/Assets/Fs/Inodes.antt =====
-- The archive of stat objects: what keeps its inode number, and what does not.
use node_apphost.Base.{
  ℕ, zero, suc, ◌+◌, Str, str_eq, str_eq-false, false, List, [], ◌∷◌, Option, none, some, is_empty,
  ap, length, ◌≡◌, ◌≢◌, refl, arith,
}
use node_apphost.Base.Dict.{lookup, insert, lookup-insert, lookup-insert_self}
use node_apphost.Base.Text.{split_on}
use node_apphost.Base.Search.{index_of}
use node_apphost.Assets.Tree.{Found}
use node_apphost.Assets.Tree.Sizes.{last_size}
use node_apphost.Assets.Fs.{
  Package, Stat, Archive, stat, Host, archived, answer, look, at_position, position, exists_sync,
}
use node_apphost.Assets.Fs.Lookups.{
  package_at, below, NoSlashEnds, exists_sync-file, exists_sync-relative,
}

archived-again :
    (h : Host) (key : Str) (found : Found) (o : Option Stat) (a : Archive)
    → lookup key a.stats ≡ o
    → let r = archived h key found o a in archived h key found (lookup key (r.1).stats) r.1 ≡ r
unfolding archived
archived-again h key found (some s) a e = rw e
archived-again h key found none a e = rw (lookup-insert_self key _ a.stats)

answer-again :
    (h : Host) (key : Str) (found : Option Found) (a : Archive)
    → let r = answer h key found a in answer h key found r.1 ≡ r
unfolding answer
answer-again h key none a = refl
answer-again h key (some found) a = archived-again h key found (lookup key a.stats) a refl

at_position-again :
    (h : Host) (p : Package) (pathname : Str) (n : Option ℕ) (a : Archive)
    → let r = at_position h p pathname n a in at_position h p pathname n r.1 ≡ r
unfolding at_position look
at_position-again h p pathname none a = answer-again h pathname _ a
at_position-again h p pathname (some zero) a = answer-again h _ _ a
at_position-again h p pathname (some (suc n)) a = refl

-- Whatever the package and the path are, a second call of `existsSync` with the path gives the
-- answer of the first, with its inode number, and changes nothing more.
pub exists_sync_again :
    (h : Host) (p : Package) (pathname : Str) (a : Archive)
    → let r = exists_sync h p pathname a in exists_sync h p pathname r.1 ≡ r
unfolding exists_sync
exists_sync_again h p pathname a = at_position-again h p pathname (position p pathname) a

longer : (file : Str) → str_eq (b'/' ∷ file) file ≡ false
longer file = str_eq-false (b'/' ∷ file) file (λ e. absurd (omega (arith, ap length e)))

-- But a file has two inode numbers, one for its path under the root and one for its relative
-- path, if `getNewIno` never gives a number twice.
pub exists_sync_two_inodes :
    (h : Host) (c : ℕ) (cs : Str) (assets : List (Str × ℕ)) (file : Str) (n : ℕ)
    → ((i j : ℕ) → h.new_ino i ≡ h.new_ino j → i ≡ j)
    → NoSlashEnds file
    → last_size (split_on b'/' file) assets none ≡ some n
    → index_of (c ∷ cs) file ≡ none
    → is_empty file ≡ false
    → let a : Archive = record { stats = []; drawn = 0 } in
      let r = exists_sync h (package_at h c cs assets file) (below h c cs assets file) a in
      (s : Stat) × (t : Stat) × (r.0 ≡ stat s)
      × ((exists_sync h (package_at h c cs assets file) file r.1).0 ≡ stat t)
      × (s.ino ≢ t.ino)
unfolding lookup
exists_sync_two_inodes h c cs assets file n inj ends listed apart filled =
    let a : Archive = record { stats = []; drawn = 0 } in
    let e = exists_sync-file h c cs assets file n ends listed a refl in
    let s : Stat = record { size = n; mode = 33188; ino = h.new_ino 0 } in
    let a' : Archive = record { stats = insert (b'/' ∷ file) s []; drawn = 0 + 1 } in
    let e' =
      exists_sync-relative h c cs assets file n ends listed a' apart filled
        (rw (lookup-insert (b'/' ∷ file) file s [], longer file)) in
    (
      s,
      record { size = n; mode = 33188; ino = h.new_ino (0 + 1) },
      rw e,
      rw (e, e'),
      λ q. absurd (omega (arith, inj 0 1 q)),
    )
