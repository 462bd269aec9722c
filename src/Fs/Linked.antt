-- ===== src/Fs/Linked.antt =====
-- fs.c: dirlookup and dirlink on the whole directory.
use mathlib.Core.Path.{fun_ext, subst}
use native.Mathlib.Decide.{ℕ_discrete, dec_lt}
use schoolstuff.Base.{
  ℕ, suc, ◌+◌, ◌-◌, ◌*◌, ◌%◌, ◌^◌, ◌≤◌, ◌<◌, ◌≡◌, ◌≢◌, refl, true, false, Option, none, some, arith,
  ◌==◌, inl, inr, ne→==, ==_refl, ◌∙◌, sym, ap, update,
}
use schoolstuff.Base.Outcome.{ok, OnOk-ok}
use schoolstuff.Log.{Log}
use schoolstuff.Fs.Called.{write_calls, writei-Calls, Ended}
use schoolstuff.Fs.Logging.{logged_dirlink, Room, Calls, Calls-weaken}
use schoolstuff.Fs.Logged.{NamesChanges, log_all-ok}
use schoolstuff.Strings.Paste.{pasted-inside, pasted-outside}
use schoolstuff.Fs.{Volume, half_at, max_file, block_size}
use schoolstuff.Fs.Blocks.{free_below}
use schoolstuff.Fs.Inode.{Inode, Buffer, Devsw, writei}
use schoolstuff.Fs.Slots.{content}
use schoolstuff.Fs.Extend.{WellFormed, Extends, writei_lem}
use schoolstuff.Fs.Icache.{Cache}
use schoolstuff.Fs.Dir.{
  t_dir, dirent_size, is_entry, dirlookup_from, dirlookup, find_empty, get_entry, new_entry,
  dirlink,
}
use schoolstuff.Fs.Entries.{dirent_at, IsOffset, Absent, dirlookup_from_lem, find_empty_lem}
use schoolstuff.Fs.Links.{IsNew, new_entry-inum, new_entry-IsEntry}

-- A directory: its content is a whole number of entries.
pub record Directory (meta : ℕ) (ip : Inode) (v : Volume) : Type 0 where
  pub well_formed : WellFormed meta ip v
  pub kind : ip.type ≡ t_dir
  pub whole : ip.size % dirent_size ≡ 0

update_self : (c : Cache) (i : ℕ) → update c i (c i) ≡ c
update_self c i =
    fun_ext (λ j. elim (ℕ_discrete i j) [ yes e ↦ rw (e, ==_refl j) | no ne ↦ rw (ne→== i j ne) ])

-- What dirlookup of a directory comes to.
dirlookup-at :
    (k : Devsw) (meta : ℕ) (i : ℕ) (c : Cache) (v : Volume) (name : Buffer) (r : Option (ℕ × ℕ))
    → Directory meta (c i) v
    → dirlookup_from (suc (c i).size) k 0 name (c i) v ≡ ok (r, c i, v)
    → dirlookup k i name c v ≡ get_entry (c i) r c v
unfolding dirlookup
dirlookup-at k meta i c v name r dir run =
    let kind : ((c i).type == t_dir) ≡ true = rw (dir.kind) in
    rw (kind, run) (ap (λ c'. get_entry (c i) r c' v) (update_self c i))

-- Where the new entry is, and the entries after dirlink.
record Linked (ip : Inode) (v : Volume) (name : Buffer) (inum off : ℕ) (ip' : Inode) (v' : Volume)
    : Type 0 where
  pub at : IsOffset ip' off
  pub fresh : IsNew name inum (dirent_at ip' v' off)
  pub size : ip.size ≤ ip'.size
  pub grown : (o : ℕ) → IsOffset ip' o → o ≢ off → o < ip.size
  pub others : (o : ℕ) → IsOffset ip o → o ≢ off → dirent_at ip' v' o ≡ dirent_at ip v o

Extends-Linked :
    (meta : ℕ) (ip : Inode) (v : Volume) (name : Buffer) (inum off : ℕ) (ip' : Inode) (v' : Volume)
    → Directory meta ip v
    → off % dirent_size ≡ 0
    → off ≤ ip.size
    → ip.size + dirent_size ≤ max_file * block_size
    → Extends meta ip v off dirent_size (new_entry name inum) ip' v'
    → Linked ip v name inum off ip' v'
Extends-Linked meta ip v name inum off ip' v' dir aligned le room ext =
    let whole = dir.whole in
    record {
      at = (aligned, ground (arith, ext.size));
      fresh = λ j h.
          pasted-inside 0 dirent_size (λ i. content ip' v' (off + i)) (λ i. 0) j (omega arith)
            (omega arith)
          ∙ ext.bytes (off + (j - 0)) (omega arith)
          ∙ pasted-inside off dirent_size (new_entry name inum) (content ip v) (off + (j - 0))
              (omega arith) (omega arith)
          ∙ ap (new_entry name inum) (omega arith);
      size = ground (arith, ext.size);
      grown = λ o (al, lt) ne. ground (arith, ext.size);
      others = λ o (al, lt) ne. fun_ext (λ j. elim (dec_lt j dirent_size) [
        | yes h ↦
            pasted-inside 0 dirent_size (λ i. content ip' v' (o + i)) (λ i. 0) j (omega arith)
              (omega arith)
            ∙ ext.bytes (o + (j - 0)) (omega arith)
            ∙ pasted-outside off dirent_size (new_entry name inum) (content ip v) (o + (j - 0))
                (omega arith)
            ∙ sym (
                pasted-inside 0 dirent_size (λ i. content ip v (o + i)) (λ i. 0) j (omega arith)
                  (omega arith))
        | no h ↦
            pasted-outside 0 dirent_size (λ i. content ip' v' (o + i)) (λ i. 0) j
              (inr (omega arith))
            ∙ sym (
                pasted-outside 0 dirent_size (λ i. content ip v (o + i)) (λ i. 0) j
                  (inr (omega arith)))
      ]);
    }

Extends-Directory :
    (meta : ℕ) (ip : Inode) (v : Volume) (name : Buffer) (inum off : ℕ) (ip' : Inode) (v' : Volume)
    → Directory meta ip v
    → off % dirent_size ≡ 0
    → off ≤ ip.size
    → Extends meta ip v off dirent_size (new_entry name inum) ip' v'
    → Directory meta ip' v'
Extends-Directory meta ip v name inum off ip' v' dir aligned le ext =
    let whole = dir.whole in
    record {
      well_formed = ext.well_formed;
      kind = ap (λ (x : Inode). x.type) ext.inode ∙ dir.kind;
      whole = ground (arith, ext.size);
    }

Linked-Finds :
    (meta : ℕ) (k : Devsw) (ip : Inode) (v : Volume) (name : Buffer) (inum off : ℕ) (ip' : Inode)
    (v' : Volume)
    → Linked ip v name inum off ip' v'
    → Directory meta ip' v'
    → Absent ip v name 0 ip.size
    → 1 ≤ inum
    → inum < 2 ^ 16
    → dirlookup_from (suc ip'.size) k 0 name ip' v' ≡ ok (some (off, inum), ip', v')
Linked-Finds meta k ip v name inum off ip' v' linked dir absent pos small =
    let here = new_entry-IsEntry name inum (dirent_at ip' v' off) pos small linked.fresh in
    let inum_here = new_entry-inum name inum (dirent_at ip' v' off) small linked.fresh in
    elim (dirlookup_from_lem k meta ip' v' dir.well_formed dir.whole (suc ip'.size) 0 name
      (omega arith) (omega arith) (omega arith)) [
        | inl (run, none_there) ↦
            let clash : true ≡ false =
              sym here ∙ none_there off (omega arith) linked.at.1 linked.at.0 in
            absurd (ground arith)
        | inr (o, run, lo, at, is_o, before) ↦ elim (ℕ_discrete o off) [
          | yes e ↦
              run
              ∙ ap (λ x. ok (some (x, half_at (dirent_at ip' v' x) 0), ip', v')) e
              ∙ ap (λ n. ok (some (off, n), ip', v')) inum_here
          | no ne ↦
              let old = linked.grown o at ne in
              let same = linked.others o (at.0, old) ne in
              let clash : true ≡ false =
                sym is_o ∙ ap (is_entry name) same ∙ absent o (omega arith) old at.0 in
              absurd (ground arith)
        ]
      ]

Absent-none :
    (meta : ℕ) (k : Devsw) (ip : Inode) (v : Volume) (name : Buffer)
    → Directory meta ip v
    → Absent ip v name 0 ip.size
    → dirlookup_from (suc ip.size) k 0 name ip v ≡ ok (none, ip, v)
Absent-none meta k ip v name dir absent =
    elim (dirlookup_from_lem k meta ip v dir.well_formed dir.whole (suc ip.size) 0 name
      (omega arith) (omega arith) (omega arith)) [
        | inl (run, none_there) ↦ run
        | inr (o, run, lo, at, is_o, before) ↦
            let clash : true ≡ false = sym is_o ∙ absent o lo at.1 at.0 in absurd (ground arith)
      ]

dirlookup-again :
    (k : Devsw) (meta : ℕ) (i : ℕ) (c : Cache) (ip : Inode) (v : Volume) (name : Buffer)
    (r : Option (ℕ × ℕ))
    → Directory meta ip v
    → dirlookup_from (suc ip.size) k 0 name ip v ≡ ok (r, ip, v)
    → dirlookup k i name (update c i ip) v ≡ get_entry ip r (update c i ip) v
dirlookup-again k meta i c ip v name r dir run =
    let back : update c i ip i ≡ ip = rw (==_refl i) in
    dirlookup-at k meta i (update c i ip) v name r (subst (λ x. Directory meta x v) (sym back) dir)
      (subst (λ (x : Inode). dirlookup_from (suc x.size) k 0 name x v ≡ ok (r, x, v)) (sym back)
        run)
    ∙ ap (λ x. get_entry x r (update c i ip) v) back

dirlink-runs :
    (k : Devsw) (i : ℕ) (c : Cache) (v : Volume) (name : Buffer) (inum off : ℕ) (ip' : Inode)
    (v' : Volume)
    → dirlookup k i name c v ≡ ok (none, c, v)
    → find_empty (suc (c i).size) k 0 (c i) v ≡ ok (off, c i, v)
    → writei k (c i) (new_entry name inum) off dirent_size v ≡ ok (some dirent_size, ip', v')
    → dirlink k i name inum c v ≡ ok (some 0, update c i ip', v')
unfolding dirlink
dirlink-runs k i c v name inum off ip' v' first empty run = rw (first, empty, run) refl

-- dirlink of a name that a directory does not have, with room in it for an entry and two free blocks,
-- for an inode number from 1 up to 65535, in a transaction whose log has room for seven more blocks,
-- returns 0 with all its calls of log_write made, and the log then names every block that has changed.
-- The new entry stands behind the old ones or in the place of one that was not in use, the other
-- entries are as before, and the result is a directory in which dirlookup of the name comes to `iget`
-- of the inode's number, at the offset of the new entry.
pub dirlink-dirlookup :
    (k : Devsw) (meta : ℕ) (i : ℕ) (c : Cache) (v : Volume) (l : Log) (name : Buffer) (inum : ℕ)
    → Directory meta (c i) v
    → Absent (c i) v name 0 (c i).size
    → (c i).size + dirent_size ≤ max_file * block_size
    → 2 ≤ free_below v.sb.size v
    → 1 ≤ inum
    → inum < 2 ^ 16
    → Room 7 l
    → (off : ℕ) × (ip' : Inode) × (v' : Volume) × (l' : Log) × (logged_dirlink k i name inum c v l
        ≡ ok ((some 0, update c i ip', v'), l'))
      × NamesChanges v v' l'
      × (dirlookup k i name (update c i ip') v'
          ≡ get_entry ip' (some (off, inum)) (update c i ip') v')
      × Directory meta ip' v'
      × (off ≤ (c i).size)
      × (off < (c i).size → half_at (dirent_at (c i) v off) 0 ≡ 0)
      × ((o : ℕ) → IsOffset (c i) o → o ≢ off → dirent_at ip' v' o ≡ dirent_at (c i) v o)
unfolding logged_dirlink
dirlink-dirlookup k meta i c v l name inum dir absent room free pos small log_room =
    let wf = dir.well_formed in
    let (off, empty, aligned, le, unused) =
      find_empty_lem k meta (c i) v wf dir.whole (suc (c i).size) 0 (omega arith) (omega arith)
        (omega arith) in
    let (ip', v', run, ext) =
      writei_lem k meta (c i) v (new_entry name inum) off dirent_size wf le (omega arith)
        (omega arith) in
    let linked = Extends-Linked meta (c i) v name inum off ip' v' dir aligned le room ext in
    let dir' = Extends-Directory meta (c i) v name inum off ip' v' dir aligned le ext in
    let first =
      dirlookup-at k meta i c v name none dir (Absent-none meta k (c i) v name dir absent) in
    let calls : Calls (write_calls off dirent_size) v v' =
      OnOk-ok (Ended (write_calls off dirent_size) v)
        (writei-Calls k (c i) (new_entry name inum) off dirent_size v) run in
    let (l', logs, named, few) =
      log_all-ok 7 v v' l
        (Calls-weaken (write_calls off dirent_size) 7 v v' calls (omega (arith, aligned)))
        log_room in
    (
      off,
      ip',
      v',
      l',
      rw (dirlink-runs k i c v name inum off ip' v' first empty run, logs) refl,
      named,
      dirlookup-again k meta i c ip' v' name (some (off, inum)) dir'
          (Linked-Finds meta k (c i) v name inum off ip' v' linked dir' absent pos small),
      dir',
      le,
      unused,
      linked.others,
    )
