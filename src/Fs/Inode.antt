-- ===== src/Fs/Inode.antt =====
-- fs.c: an inode that is locked, its blocks and its contents.
use schoolstuff.Base.{
  ℕ, zero, suc, ◌+◌, ◌-◌, ◌*◌, ◌/◌, ◌%◌, Bool, true, ◌&&◌, ◌||◌, Option, none, some, ltb, leb, ◌==◌,
  if◌then◌else◌, update, min, add32,
}
use schoolstuff.Base.Outcome.{Outcome, ok, panic, panic_if, ◌>>=◌, ◌>>◌}
use schoolstuff.Strings.Paste.{pasted}
use schoolstuff.Fs.{
  block_size, n_direct, n_indirect, max_file, inodes_per_block, Block, Superblock, Volume,
  log_block, word_at, put_word, half_at, put_half, balloc,
}

-- T_DEV and NDEV
abbrev pub t_dev : ℕ
t_dev = 3

abbrev pub ndev : ℕ
ndev = 10

-- The fields that the cache adds are `ref` and `valid`. A short is its 16-bit pattern.
pub record Inode : Type 0 where
  pub dev : ℕ
  pub inum : ℕ
  pub ref : ℕ
  pub valid : Bool
  pub type : ℕ
  pub major : ℕ
  pub minor : ℕ
  pub nlink : ℕ
  pub size : ℕ
  pub addrs : ℕ → ℕ

-- What a reader or a writer passes: bytes, from the first one on.
abbrev pub Buffer : Type 0
Buffer = ℕ → ℕ

-- `devsw`: the routines of the devices, of other files.
pub record Devsw : Type 0 where
  pub read : ℕ → Option (Buffer → ℕ → Option ℕ × Buffer)
  pub write : ℕ → Option (Buffer → ℕ → Option ℕ)

-- IBLOCK, and where the inode lies in that block.
abbrev pub inode_block : Superblock → ℕ → ℕ
inode_block sb i = i / inodes_per_block + sb.inodestart

abbrev pub inode_offset : ℕ → ℕ
inode_offset i = i % inodes_per_block * 64

-- The words `f 0` to `f (n - 1)` from offset `o` on.
unfoldable pub put_words : ℕ → ℕ → (ℕ → ℕ) → Block → Block
put_words o zero f d = d
put_words o (suc n) f d = put_word (o + 4 * n) (f n) (put_words o n f d)

unfoldable pub put_dinode : ℕ → Inode → Block → Block
unfolding put_words
put_dinode o ip d = put_words (o + 12) (n_direct + 1) ip.addrs (
    put_word (o + 8) ip.size (
      put_half (o + 6) ip.nlink
        (put_half (o + 4) ip.minor (put_half (o + 2) ip.major (put_half o ip.type d)))))

unfoldable pub iupdate : Inode → Volume → Volume
iupdate ip v =
    let bb = inode_block v.sb ip.inum in
    log_block bb (put_dinode (inode_offset ip.inum) ip (v.blocks bb)) v

-- `ilock` on an inode that is not valid: what it reads from the disk.
unfoldable pub get_dinode : ℕ → Block → Inode → Inode
get_dinode o d ip = record ip {
  valid = true;
  type = half_at d o;
  major = half_at d (o + 2);
  minor = half_at d (o + 4);
  nlink = half_at d (o + 6);
  size = word_at d (o + 8);
  addrs = λ i. if ltb i (n_direct + 1) then word_at d (o + 12 + 4 * i) else ip.addrs i;
}

-- The lock itself is not modelled: `ilock` is called by a process that does not hold it yet.
unfoldable pub ilock : Inode → Volume → Outcome Inode
ilock ip v = do
  panic_if (ltb ip.ref 1)
  let disk_ip = get_dinode (inode_offset ip.inum) (v.blocks (inode_block v.sb ip.inum)) ip
  let read = do panic_if (disk_ip.type == 0); ok disk_ip
  if ip.valid then ok ip else read

-- `if((addr = …) == 0) … = addr = balloc(…)`
abbrev pub alloc_unless : ℕ → Volume → Outcome (ℕ × Volume)
alloc_unless addr v = if addr == 0 then balloc v else ok (addr, v)

-- The entry of the indirect block, number `i` of block `a`.
unfoldable pub indirect_entry : ℕ → ℕ → Inode → Volume → Outcome (ℕ × Inode × Volume)
indirect_entry a i ip v =
    let old = word_at (v.blocks a) (4 * i) in
    let grown = do
      (addr, v') ← balloc v
      ok (addr, ip, log_block a (put_word (4 * i) addr (v'.blocks a)) v')
    in if old == 0 then grown else ok (old, ip, v)

unfoldable pub bmap : Inode → ℕ → Volume → Outcome (ℕ × Inode × Volume)
unfolding indirect_entry
bmap ip bn v =
    let direct = do
      (addr, v') ← alloc_unless (ip.addrs bn) v
      ok (addr, record ip { addrs = update ip.addrs bn addr }, v')
    in let indirect = do
      (addr, v') ← alloc_unless (ip.addrs n_direct) v
      indirect_entry addr (bn - n_direct) (record ip { addrs = update ip.addrs n_direct addr }) v'
      in if ltb bn n_direct
        then direct
        else if ltb (bn - n_direct) n_indirect
        then indirect
        else panic

-- The loop of `readi`, on fuel: each round copies at least a byte.
unfoldable pub read_from :
    ℕ → ℕ → ℕ → ℕ → Inode → Volume → Buffer → Outcome (Buffer × Inode × Volume)
read_from zero tot off n ip v dst = panic
read_from (suc fuel) tot off n ip v dst =
    let more = do
      (addr, ip', v') ← bmap ip (off / block_size) v
      let m = min (n - tot) (block_size - off % block_size)
      let dst' = pasted tot m (λ i. v'.blocks addr (off % block_size + i)) dst
      read_from fuel (tot + m) (off + m) n ip' v' dst'
    in if ltb tot n then more else ok (dst, ip, v)

-- `none` is -1.
abbrev pub ReadEnd : Type 0
ReadEnd = Option ℕ × Buffer × Inode × Volume

abbrev pub read_device :
    Option (Buffer → ℕ → Option ℕ × Buffer) → Buffer → ℕ → Inode → Volume → ReadEnd
read_device none dst n ip v = (none, dst, ip, v)
read_device (some f) dst n ip v = let (r, dst') = f dst n in (r, dst', ip, v)

unfoldable pub readi : Devsw → Inode → ℕ → ℕ → Volume → Buffer → Outcome ReadEnd
unfolding read_from
readi k ip off n v dst =
    let count = if ltb ip.size (add32 off n) then ip.size - off else n in
    let read = do
      (dst', ip', v') ← read_from (suc count) 0 off count ip v dst
      ok (some count, dst', ip', v')
    in if ip.type == t_dev
      then (if leb ndev ip.major
          then ok (none, dst, ip, v)
          else ok (read_device (k.read ip.major) dst n ip v))
      else if ltb ip.size off || ltb (add32 off n) off
      then ok (none, dst, ip, v)
      else read

-- The loop of `writei`, on fuel; its results are the offset, the inode and the volume.
unfoldable pub write_from : ℕ → ℕ → ℕ → ℕ → Buffer → Inode → Volume → Outcome (ℕ × Inode × Volume)
write_from zero tot off n src ip v = panic
write_from (suc fuel) tot off n src ip v =
    let more = do
      (addr, ip', v') ← bmap ip (off / block_size) v
      let m = min (n - tot) (block_size - off % block_size)
      let d = pasted (off % block_size) m (λ i. src (tot + i)) (v'.blocks addr)
      write_from fuel (tot + m) (off + m) n src ip' (log_block addr d v')
    in if ltb tot n then more else ok (off, ip, v)

abbrev pub write_device : Option (Buffer → ℕ → Option ℕ) → Buffer → ℕ → Option ℕ
write_device none src n = none
write_device (some f) src n = f src n

-- The size after a write that ends at `off`.
unfoldable pub grow : ℕ → ℕ → Inode → Volume → Inode × Volume
grow n off ip v =
    let ip' = record ip { size = off } in
    if ltb 0 n && ltb ip.size off then (ip', iupdate ip' v) else (ip, v)

unfoldable pub writei :
    Devsw → Inode → Buffer → ℕ → ℕ → Volume → Outcome (Option ℕ × Inode × Volume)
unfolding write_from grow
writei k ip src off n v =
    let write = do
      (off', ip', v') ← write_from (suc n) 0 off n src ip v
      let (ip'', v'') = grow n off' ip' v'
      ok (some n, ip'', v'')
    in if ip.type == t_dev
      then (if leb ndev ip.major
          then ok (none, ip, v)
          else ok (write_device (k.write ip.major) src n, ip, v))
      else if ltb ip.size off || ltb (add32 off n) off
      then ok (none, ip, v)
      else if ltb (max_file * block_size) (add32 off n)
      then ok (none, ip, v)
      else write
