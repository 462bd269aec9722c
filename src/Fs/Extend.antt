-- ===== src/Fs/Extend.antt =====
-- fs.c: the whole of `writei`, with the new size in the inode on the disk, and reading back.
use native.Mathlib.Decide.{ℕ_discrete, dec_lt}
use mathlib.Core.Path.{subst}
use schoolstuff.Base.{
  ℕ, suc, ◌+◌, ◌-◌, ◌*◌, ◌/◌, ◌≤◌, ◌<◌, ◌≡◌, ◌≢◌, refl, true, false, ◌&&◌, ◌||◌, some, arith, ltb,
  ◌==◌, if◌then◌else◌, inl, inr, Bool-cases, ne→==, ◌∙◌, sym, ap, min, add32,
}
use schoolstuff.Base.Outcome.{ok}
use schoolstuff.Strings.Paste.{pasted, pasted-inside}
use schoolstuff.Fs.{block_size, max_file, Superblock, Volume, bitmap_block}
use schoolstuff.Fs.Blocks.{free_below}
use schoolstuff.Fs.Inode.{
  t_dev, Inode, Buffer, Devsw, iupdate, inode_block, readi, write_from, grow, writei,
}
use schoolstuff.Fs.Slots.{n_slots, slot, Layout, Owns, content}
use schoolstuff.Fs.Change.{changed-free, changed-slot, changed-Owns, changed-content}
use schoolstuff.Fs.Content.{Dense, readi_lem}
use schoolstuff.Fs.Round.{Wrote, content-none}
use schoolstuff.Fs.Write.{Spent, Wrote-from, write_from_lem}

-- A regular file or a directory that the kernel can read and write.
pub record WellFormed (meta : ℕ) (ip : Inode) (v : Volume) : Type 0 where
  pub layout : Layout v.sb meta
  pub owns : Owns meta ip v
  pub dense : Dense ip v ip.size
  pub small : ip.size ≤ max_file * block_size
  pub number : ip.inum < v.sb.ninodes
  pub regular : ip.type ≢ t_dev

abbrev resized : ℕ → Inode → Inode
resized n ip = record ip { size = n }

resized-slot : (n : ℕ) (ip : Inode) (v : Volume) (k : ℕ) → slot (resized n ip) v k ≡ slot ip v k
unfolding slot
resized-slot n ip v k = refl

resized-content :
    (n : ℕ) (ip : Inode) (v : Volume) (p : ℕ) → content (resized n ip) v p ≡ content ip v p
unfolding slot content
resized-content n ip v p = refl

resized-Owns : (n meta : ℕ) (ip : Inode) (v : Volume) → Owns meta ip v → Owns meta (resized n ip) v
unfolding slot
resized-Owns n meta ip v owns = record { low = owns.low; good = owns.good; inj = owns.inj }

-- The inode's own block is none of the file's.
module _ (meta : ℕ) (ip : Inode) (v : Volume) (layout : Layout v.sb meta) (owns : Owns meta ip v)
    (number : ip.inum < v.sb.ninodes) where
  abbrev own : ℕ
  own = inode_block v.sb ip.inum

  own_no_bitmap : (b : ℕ) → b < v.sb.size → own ≢ bitmap_block v.sb b
  own_no_bitmap b h e = layout.apart b ip.inum h number (sym e)

  own_apart : (k : ℕ) → k < n_slots → slot ip v k ≢ 0 → own ≢ slot ip v k
  own_apart k h nz e = elim (owns.good k h) [
    | inl z ↦ nz z
    | inr (lo, hi, used) ↦ absurd (omega (arith, layout.inodes ip.inum number))
  ]

  own_no_indirect : slot ip v max_file ≢ 0 → own ≢ slot ip v max_file
  own_no_indirect = own_apart max_file (omega arith)

  iupdate-slot : (k : ℕ) → k < n_slots → slot ip (iupdate ip v) k ≡ slot ip v k
  unfolding iupdate
  iupdate-slot k h = changed-slot meta ip v layout owns own _ own_no_bitmap own_no_indirect k h

  iupdate-free : free_below v.sb.size (iupdate ip v) ≡ free_below v.sb.size v
  unfolding iupdate
  iupdate-free = changed-free meta ip v layout owns own _ own_no_bitmap own_no_indirect

  iupdate-Owns : Owns meta ip (iupdate ip v)
  unfolding iupdate
  iupdate-Owns = changed-Owns meta ip v layout owns own _ own_no_bitmap own_no_indirect

  iupdate-content :
      (p : ℕ) → p < max_file * block_size → content ip (iupdate ip v) p ≡ content ip v p
  unfolding iupdate
  iupdate-content p h =
      changed-content meta ip v layout owns own _ own_no_bitmap own_no_indirect p h
      ∙ elim (ℕ_discrete (slot ip v (p / block_size)) 0) [
        | yes z ↦
            let test : (slot ip v (p / block_size) == 0) ≡ true = ground arith in
            rw test (sym (content-none ip v p z))
        | no nz ↦ rw (ne→== _ 0 nz, ne→== own _ (own_apart (p / block_size) (omega arith) nz))
      ]

-- The size of a file after a write.
abbrev pub new_size : Inode → ℕ → ℕ → ℕ
new_size ip off n = if ltb ip.size (off + n) then off + n else ip.size

Spent-same :
    (v v1 v2 : Volume) (lo hi : ℕ)
    → free_below v.sb.size v2 ≡ free_below v.sb.size v1
    → Spent v v1 lo hi
    → Spent v v2 lo hi
Spent-same v v1 v2 lo hi same spent = omega (arith, same, spent)

-- What `writei` leaves of a file.
pub record Extends (meta : ℕ) (ip : Inode) (v : Volume) (off n : ℕ) (src : Buffer) (ip' : Inode)
    (v' : Volume) : Type 0 where
  pub well_formed : WellFormed meta ip' v'
  pub inode : ip' ≡ record ip { addrs = ip'.addrs; size = ip'.size }
  pub size : ip'.size ≡ new_size ip off n
  pub disk : v'.sb ≡ v.sb
  pub spent : Spent v v' off (off + n)
  pub bytes :
      (p : ℕ) → p < max_file * block_size → content ip' v' p ≡ pasted off n src (content ip v) p

module _ (meta : ℕ) (ip : Inode) (v : Volume) (off n : ℕ) (src : Buffer) (ip1 : Inode) (v1 : Volume)
    (wf : WellFormed meta ip v) (start : off ≤ ip.size) (small : off + n ≤ max_file * block_size)
    (wrote : Wrote meta ip v ip1 v1 off n src) (spent : Spent v v1 off (off + n)) where
  layout1 : Layout v1.sb meta
  layout1 = subst (λ s. Layout s meta) (sym wrote.sb) wf.layout

  number1 : ip1.inum < v1.sb.ninodes
  number1 = omega (
    arith,
    wf.number,
    ap (λ (x : Inode). x.inum) wrote.inode,
    ap (λ (s : Superblock). s.ninodes) wrote.sb,
  )

  regular1 : ip1.type ≢ t_dev
  regular1 = omega (arith, wf.regular, ap (λ (x : Inode). x.type) wrote.inode)

  same_size : ip1.size ≡ ip.size
  same_size = ap (λ (x : Inode). x.size) wrote.inode

  dense1 : (s : ℕ) → s ≤ new_size ip off n → Dense ip1 v1 s
  dense1 s le k h under = elim (dec_lt (k * block_size) ip.size) [
    | yes old ↦ wrote.stays k h (wf.dense k h old)
    | no new ↦ wrote.reached (ground arith) k h (ground arith) (ground arith)
  ]

  grow-Extends : Extends meta ip v off n src (grow n (off + n) ip1 v1).0 (grow n (off + n) ip1 v1).1
  unfolding grow iupdate
  grow-Extends = elim (Bool-cases (ltb 0 n && ltb ip1.size (off + n))) [
    | inr h ↦
        let stays : new_size ip off n ≡ ip.size = ground (arith, same_size) in
        rw h (record {
          well_formed = record {
            layout = layout1;
            owns = wrote.owns;
            dense = dense1 ip1.size (omega (arith, same_size, stays));
            small = omega (arith, wf.small, same_size);
            number = number1;
            regular = regular1;
          };
          inode = ap (λ (x : Inode). record x { addrs = ip1.addrs; size = ip1.size }) wrote.inode;
          disk = wrote.sb;
          spent = spent;
          size = same_size ∙ sym stays;
          bytes = wrote.bytes;
        })
    | inl h ↦
        let grows : new_size ip off n ≡ off + n = ground (arith, same_size) in
        let ip2 = resized (off + n) ip1 in
        let owns2 = resized-Owns (off + n) meta ip1 v1 wrote.owns in
        let blocks_same : v1.sb.size ≡ v.sb.size = ap (λ (s : Superblock). s.size) wrote.sb in
        let free_same : free_below v.sb.size (iupdate ip2 v1) ≡ free_below v.sb.size v1 =
          subst (λ k. free_below k (iupdate ip2 v1) ≡ free_below k v1) blocks_same
            (iupdate-free meta ip2 v1 layout1 owns2 number1) in
        let spent2 = Spent-same v v1 (iupdate ip2 v1) off (off + n) free_same spent in
        rw h (record {
          well_formed = record {
            layout = layout1;
            owns = iupdate-Owns meta ip2 v1 layout1 owns2 number1;
            dense = λ k hk hs.
                rw
                  (
                    iupdate-slot meta ip2 v1 layout1 owns2 number1 k (omega arith),
                    resized-slot (off + n) ip1 v1 k,
                  )
                  (dense1 (off + n) (omega (arith, grows)) k hk hs);
            small = small;
            number = number1;
            regular = regular1;
          };
          inode = ap (λ (x : Inode). record x { addrs = ip1.addrs; size = off + n }) wrote.inode;
          disk = wrote.sb;
          spent = spent2;
          size = sym grows;
          bytes = λ p hp.
              iupdate-content meta ip2 v1 layout1 owns2 number1 p hp
              ∙ resized-content (off + n) ip1 v1 p
              ∙ wrote.bytes p hp;
        })
  ]

write_all :
    (meta : ℕ) (ip : Inode) (v : Volume) (off n : ℕ) (src : Buffer)
    → WellFormed meta ip v
    → off + n ≤ max_file * block_size
    → 2 * ((off + n + 511) / block_size - off / block_size) ≤ free_below v.sb.size v
    → (ip1 : Inode) × (v1 : Volume) × (write_from (suc n) 0 off n src ip v ≡ ok (off + n, ip1, v1))
      × Wrote meta ip v ip1 v1 off n src
      × Spent v v1 off (off + n)
write_all meta ip v off n src wf small free =
    let z : off + 0 ≡ off = omega arith in
    let all : n - 0 ≡ n = omega arith in
    let (ip1, v1, run, wrote, spent) =
      write_from_lem meta n off src (suc n) 0 ip v small wf.layout wf.owns (omega arith)
        (omega arith) (λ pos. omega arith) in
    (
      ip1,
      v1,
      ap (λ o. write_from (suc n) 0 o n src ip v) (sym z) ∙ run,
      Wrote-from meta ip v ip1 v1 (off + 0) off (n - 0) n (λ i. src (0 + i)) src z all
          (λ i. ap src (omega arith)) wrote,
      subst (λ o. Spent v v1 o (off + n)) z spent,
    )

-- writei, its calls of log_write left aside, into a well-formed file, from an offset within it up to one that a file can have, with two
-- free blocks for each block that it touches, returns `n`. The bytes from `off` on are then those
-- of the caller and the others are as before, the size is the larger of the old one and the end of
-- the write, and the file is well-formed again: its blocks are its own, all in use and without holes.
pub writei_lem :
    (k : Devsw) (meta : ℕ) (ip : Inode) (v : Volume) (src : Buffer) (off n : ℕ)
    → WellFormed meta ip v
    → off ≤ ip.size
    → off + n ≤ max_file * block_size
    → 2 * ((off + n + 511) / block_size - off / block_size) ≤ free_below v.sb.size v
    → (ip' : Inode) × (v' : Volume) × (writei k ip src off n v ≡ ok (some n, ip', v'))
      × Extends meta ip v off n src ip' v'
unfolding writei
writei_lem k meta ip v src off n wf start small free =
    let (ip1, v1, run, wrote, spent) = write_all meta ip v off n src wf small free in
    let bounds : (ltb ip.size off || ltb (add32 off n) off) ≡ false = ground arith in
    let fits : ltb (max_file * block_size) (add32 off n) ≡ false = ground arith in
    rw (ne→== _ t_dev wf.regular, bounds, fits, run)
      (_, _, refl, grow-Extends meta ip v off n src ip1 v1 wf start small wrote spent)

-- What such a writei wrote, readi reads back: the same `n` bytes from the same offset.
pub readi-writei :
    (k : Devsw) (meta : ℕ) (ip : Inode) (v : Volume) (src dst : Buffer) (off n : ℕ)
    → WellFormed meta ip v
    → off ≤ ip.size
    → off + n ≤ max_file * block_size
    → 2 * ((off + n + 511) / block_size - off / block_size) ≤ free_below v.sb.size v
    → (ip' : Inode) × (v' : Volume) × (dst' : Buffer) × (writei k ip src off n v
        ≡ ok (some n, ip', v'))
      × (readi k ip' off n v' dst ≡ ok (some n, dst', ip', v'))
      × ((i : ℕ) → i < n → dst' i ≡ src i)
readi-writei k meta ip v src dst off n wf start small free =
    let (ip', v', run, ext) = writei_lem k meta ip v src off n wf start small free in
    let wf' = ext.well_formed in
    let reach : off + n ≤ ip'.size = ground (arith, ext.size) in
    let (dst', back, bytes) =
      readi_lem k ip' v' off n dst wf'.regular wf'.dense wf'.small (omega arith) (omega arith) in
    let count : min n (ip'.size - off) ≡ n = omega arith in
    (
      ip',
      v',
      dst',
      run,
      rw count at back,
      λ i h.
          bytes i
          ∙ pasted-inside 0 (min n (ip'.size - off)) (λ j. content ip' v' (off + j)) dst i
              (omega arith) (omega arith)
          ∙ ext.bytes (off + (i - 0)) (omega arith)
          ∙ pasted-inside off n src (content ip v) (off + (i - 0)) (omega arith) (omega arith)
          ∙ ap src (omega arith),
    )
