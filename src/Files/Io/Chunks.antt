-- ===== src/Files/Io/Chunks.antt =====
-- file.c: a write in chunks is one write.
use native.Mathlib.Decide.{dec_lt}
use mathlib.Core.Path.{subst, fun_ext}
use schoolstuff.Base.{
  ℕ, zero, suc, ◌+◌, ◌-◌, ◌*◌, ◌/◌, ◌≤◌, ◌<◌, ◌≡◌, refl, Bool, true, false, some, ltb, min, add32,
  arith, ==_refl, ◌∙◌, sym, ap,
}
use schoolstuff.Base.Outcome.{Outcome, ok}
use schoolstuff.Strings.Paste.{pasted, pasted-outside}
use schoolstuff.Fs.{Superblock, Volume, max_file, block_size}
use schoolstuff.Fs.Blocks.{free_below}
use schoolstuff.Fs.Inode.{Inode, Buffer, Devsw, ilock, writei}
use schoolstuff.Fs.Slots.{content}
use schoolstuff.Fs.Content.{pasted-join, pasted-ext}
use schoolstuff.Fs.Extend.{WellFormed, Extends, new_size, writei_lem}
use schoolstuff.Fs.Write.{Spent}
use schoolstuff.Files.{Kind, File}
use schoolstuff.Files.Io.{chunk, write_chunks, write_inode, filewrite, Call, returns, by_kind}

-- An open inode that has been read from the disk.
pub record Open (meta : ℕ) (ip : Inode) (v : Volume) : Type 0 where
  pub well_formed : WellFormed meta ip v
  pub valid : ip.valid ≡ true
  pub used : 1 ≤ ip.ref

-- What a write of `n` bytes at `off` leaves of an open inode.
pub record Stored (meta : ℕ) (ip : Inode) (v : Volume) (off n : ℕ) (src : Buffer) (ip' : Inode)
    (v' : Volume) : Type 0 where
  pub opened : Open meta ip' v'
  pub size : ip'.size ≡ new_size ip off n
  pub bytes :
      (p : ℕ) → p < max_file * block_size → content ip' v' p ≡ pasted off n src (content ip v) p

pub ilock-Open : (meta : ℕ) (ip : Inode) (v : Volume) → Open meta ip v → ilock ip v ≡ ok ip
unfolding ilock
ilock-Open meta ip v opened =
    let test : ltb ip.ref 1 ≡ false = ground (arith, opened.used) in rw (test, opened.valid)

Extends-Open :
    (meta : ℕ) (ip : Inode) (v : Volume) (off n : ℕ) (src : Buffer) (ip' : Inode) (v' : Volume)
    → Open meta ip v
    → Extends meta ip v off n src ip' v'
    → Open meta ip' v'
Extends-Open meta ip v off n src ip' v' opened ext = record {
  well_formed = ext.well_formed;
  valid = ap (λ (x : Inode). x.valid) ext.inode ∙ opened.valid;
  used = omega (arith, opened.used, ap (λ (x : Inode). x.ref) ext.inode);
}

Stored-next :
    (meta : ℕ) (ip : Inode) (v : Volume) (off m k len off1 : ℕ) (f g : Buffer) (ip1 : Inode)
    (v1 : Volume) (ip' : Inode) (v' : Volume)
    → m + k ≡ len
    → off1 ≡ off + m
    → ((i : ℕ) → g i ≡ f (m + i))
    → Extends meta ip v off m f ip1 v1
    → Stored meta ip1 v1 off1 k g ip' v'
    → Stored meta ip v off len f ip' v'
Stored-next meta ip v off m k len off1 f g ip1 v1 ip' v' el eo same a b = record {
  opened = b.opened;
  size = ground (arith, a.size, b.size, el, eo);
  bytes = λ p h.
      b.bytes p h
      ∙ ap (λ o. pasted o k g (content ip1 v1) p) eo
      ∙ pasted-ext (off + m) k g g (content ip1 v1) (pasted off m f (content ip v)) p (λ i hi. refl)
          (a.bytes p h)
      ∙ pasted-join off m k f g (content ip v) p same
      ∙ ap (λ n. pasted off n f (content ip v) p) el;
}

nothing-Stored :
    (meta : ℕ) (ip : Inode) (v : Volume) (off n : ℕ) (src : Buffer)
    → Open meta ip v
    → off ≤ ip.size
    → n ≡ 0
    → Stored meta ip v off n src ip v
nothing-Stored meta ip v off n src opened start z = record {
  opened = opened;
  size = ground (arith, z, start);
  bytes = λ p h. sym (pasted-outside off n src (content ip v) p (omega arith));
}

-- The file after a write, and what the loop of `filewrite` comes to from byte `i` on.
abbrev pub moved : File → ℕ → File
moved f off = record f { off = off }

abbrev Writes : ℕ → Devsw → ℕ → ℕ → ℕ → Buffer → File → Inode → Volume → Type 0
Writes meta k fuel i n addr f ip v =
    (ip' : Inode) × (v' : Volume) × (write_chunks fuel k i n addr f ip v
      ≡ ok (n, moved f (f.off + (n - i)), ip', v'))
    × Stored meta ip v f.off (n - i) (λ j. addr (i + j)) ip' v'

next_chunk :
    (meta : ℕ) (k : Devsw) (n : ℕ) (addr : Buffer) (fuel i : ℕ) (f : File) (ip : Inode) (v : Volume)
    (ip1 : Inode) (v1 : Volume)
    → Open meta ip v
    → i < n
    → f.off ≤ ip.size
    → f.off + (n - i) ≤ max_file * block_size
    → writei k ip (λ j. addr (i + j)) f.off (min (n - i) chunk) v
      ≡ ok (some (min (n - i) chunk), ip1, v1)
    → Extends meta ip v f.off (min (n - i) chunk) (λ j. addr (i + j)) ip1 v1
    → Writes meta k fuel (i + min (n - i) chunk) n addr (moved f (f.off + min (n - i) chunk)) ip1 v1
    → Writes meta k (suc fuel) i n addr f ip v
unfolding write_chunks
next_chunk meta k n addr fuel i f ip v ip1 v1 opened more start small run ext
      (ip', v', rest, stored) =
    let n1 : ℕ = min (n - i) chunk in
    let test : ltb i n ≡ true = ground arith in
    let some_byte : ltb 0 (min (n - i) chunk) ≡ true = ground arith in
    let sum : add32 f.off (min (n - i) chunk) ≡ f.off + min (n - i) chunk = omega arith in
    let end : f.off + n1 + (n - (i + n1)) ≡ f.off + (n - i) = omega arith in
    (
      ip',
      v',
      rw (test, ilock-Open meta ip v opened, run, ==_refl (min (n - i) chunk), some_byte, sum)
          (rest ∙ ap (λ o. ok (n, moved f o, ip', v')) end),
      Stored-next meta ip v f.off n1 (n - (i + n1)) (n - i) (f.off + n1) (λ j. addr (i + j))
          (λ j. addr (i + n1 + j)) ip1 v1 ip' v' (omega arith) refl (λ j. ap addr (omega arith)) ext
          stored,
    )

-- The free blocks that are left after a chunk.
free_left :
    (v v1 : Volume) (off n1 : ℕ)
    → n1 ≤ chunk
    → v1.sb.size ≡ v.sb.size
    → Spent v v1 off (off + n1)
    → free_below v.sb.size v ≤ free_below v1.sb.size v1 + 8
free_left v v1 off n1 small size spent =
    let same : free_below v1.sb.size v1 ≡ free_below v.sb.size v1 =
      ap (λ c. free_below c v1) size in
    elim (dec_lt off (off + n1)) [
      | yes h ↦
          let test : ltb off (off + n1) ≡ true = ground arith in
          let cost : free_below v.sb.size v
              ≤ free_below v.sb.size v1 + 2 * ((off + n1 + 511) / block_size - off / block_size) =
            rw test at spent in
          omega (arith, same, cost)
      | no h ↦
          let test : ltb off (off + n1) ≡ false = ground arith in
          let cost : free_below v.sb.size v ≤ free_below v.sb.size v1 + 0 = rw test at spent in
          omega (arith, same, cost)
    ]

write_chunks_lem :
    (meta : ℕ) (k : Devsw) (n : ℕ) (addr : Buffer) (fuel i : ℕ) (f : File) (ip : Inode) (v : Volume)
    → Open meta ip v
    → f.off ≤ ip.size
    → f.off + (n - i) ≤ max_file * block_size
    → 8 * ((n - i + (chunk - 1)) / chunk) ≤ free_below v.sb.size v
    → i ≤ n
    → n - i < fuel
    → Writes meta k fuel i n addr f ip v
unfolding write_chunks
write_chunks_lem meta k n addr zero i f ip v opened start small free le enough =
    absurd (omega arith)
write_chunks_lem meta k n addr (suc fuel) i f ip v opened start small free le enough =
    elim (dec_lt i n) [
      | no done ↦
          let test : ltb i n ≡ false = ground arith in
          let all : i ≡ n = omega arith in
          let end : f.off + (n - i) ≡ f.off = omega arith in
          rw test (
            ip,
            v,
            ap (λ a. ok (a, f, ip, v)) all ∙ ap (λ o. ok (n, moved f o, ip, v)) (sym end),
            nothing-Stored meta ip v f.off (n - i) (λ j. addr (i + j)) opened start (omega arith),
          )
      | yes more ↦
          let test : ltb i n ≡ true = ground arith in
          let n1 : ℕ = min (n - i) chunk in
          let (ip1, v1, run, ext) =
            writei_lem k meta ip v (λ j. addr (i + j)) f.off n1 opened.well_formed start
              (omega arith) (omega arith) in
          let opened1 = Extends-Open meta ip v f.off n1 (λ j. addr (i + j)) ip1 v1 opened ext in
          let left =
            free_left v v1 f.off n1 (omega arith) (ap (λ (s : Superblock). s.size) ext.disk)
              ext.spent in
          next_chunk meta k n addr fuel i f ip v ip1 v1 opened more start small run ext (
            write_chunks_lem meta k n addr fuel (i + n1) (moved f (f.off + n1)) ip1 v1 opened1
              (ground (arith, ext.size)) (omega arith) (omega (arith, left)) (omega arith)
              (omega arith))
    ]

pub by_kind-inode :
    {A : Type 0} {b : Bool} {q : Kind} (p : ℕ)
    → q ≡ Kind.fd_inode
    → b ≡ true
    → (a : A) (run : Outcome (Call A)) → by_kind b q p a run ≡ run
by_kind-inode {A} {b} {q} p kind allowed a run =
    ap (λ x. by_kind x q p a run) allowed ∙ ap (λ x. by_kind true x p a run) kind

filewrite-run :
    (k : Devsw) (f g : File) (ip ip' : Inode) (addr : Buffer) (n : ℕ) (v v' : Volume)
    → f.kind ≡ Kind.fd_inode
    → f.writable ≡ true
    → write_chunks (suc n) k 0 n addr f ip v ≡ ok (n, g, ip', v')
    → filewrite k f ip addr n v ≡ ok (returns (some n) (g, ip', v'))
unfolding filewrite write_inode
filewrite-run k f g ip ip' addr n v v' kind writable run =
    by_kind-inode f.pipe kind writable (f, ip, v) (write_inode k f ip addr n v)
    ∙ rw (run, ==_refl n)

-- filewrite of `n` bytes to an open inode that is writable, well-formed and not a device, from the file's offset up to
-- what a file can hold and with eight free blocks for each chunk, returns `n` and moves the offset by `n`. However many
-- chunks it takes, the bytes of the file are those of one write of `n` bytes, and it is well-formed again.
pub filewrite_lem :
    (meta : ℕ) (k : Devsw) (f : File) (ip : Inode) (addr : Buffer) (n : ℕ) (v : Volume)
    → f.kind ≡ Kind.fd_inode
    → f.writable ≡ true
    → Open meta ip v
    → f.off ≤ ip.size
    → f.off + n ≤ max_file * block_size
    → 8 * ((n + (chunk - 1)) / chunk) ≤ free_below v.sb.size v
    → (ip' : Inode) × (v' : Volume) × (filewrite k f ip addr n v
        ≡ ok (returns (some n) (moved f (f.off + n), ip', v')))
      × Stored meta ip v f.off n addr ip' v'
filewrite_lem meta k f ip addr n v kind writable opened start small free =
    let whole : n - 0 ≡ n = omega arith in
    let (ip', v', run, stored) =
      write_chunks_lem meta k n addr (suc n) 0 f ip v opened start (omega arith) (rw whole free)
        (omega arith) (omega arith) in
    (
      ip',
      v',
      filewrite-run k f (moved f (f.off + n)) ip ip' addr n v v' kind writable
          (run ∙ ap (λ m. ok (n, moved f (f.off + m), ip', v')) whole),
      subst (λ m. Stored meta ip v f.off m addr ip' v') whole
          (subst (λ src. Stored meta ip v f.off (n - 0) src ip' v')
            (fun_ext (λ j. ap addr (omega arith))) stored),
    )
