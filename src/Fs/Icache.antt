-- ===== src/Fs/Icache.antt =====
-- fs.c: truncation, the table of inodes in memory and their allocation on the disk. A pointer to an
-- inode is its index in the table, and what a process does with an inode that it has locked is one
-- step.
use schoolstuff.Base.{
  ℕ, zero, suc, ◌+◌, ◌-◌, ◌*◌, Bool, false, not, ◌&&◌, Option, none, some, ltb, ◌==◌, if◌then◌else◌,
  update,
}
use schoolstuff.Base.Outcome.{Outcome, ok, panic, ◌>>=◌}
use schoolstuff.Fs.{
  n_direct, n_indirect, Block, Volume, log_block, word_at, half_at, put_half, readsb, bfree,
}
use schoolstuff.Fs.Inode.{Inode, inode_block, inode_offset, iupdate}

-- NINODE
abbrev pub n_inode : ℕ
n_inode = 50

-- The first loop of `itrunc`, `n` rounds from `i` on.
unfoldable pub free_direct : ℕ → ℕ → Inode → Volume → Outcome (Inode × Volume)
free_direct zero i ip v = ok (ip, v)
free_direct (suc n) i ip v =
    let freed = do
      v' ← bfree (ip.addrs i) v
      free_direct n (i + 1) (record ip { addrs = update ip.addrs i 0 }) v'
    in let rest = free_direct n (i + 1) ip v in if not (ip.addrs i == 0) then freed else rest

-- The second: `a` is the indirect block, and stays as it is.
unfoldable pub free_indirect : ℕ → ℕ → ℕ → Volume → Outcome Volume
free_indirect zero j a v = ok v
free_indirect (suc n) j a v =
    let w = word_at (v.blocks a) (4 * j) in
    let freed = do v' ← bfree w v; free_indirect n (j + 1) a v'
    in let rest = free_indirect n (j + 1) a v in if not (w == 0) then freed else rest

unfoldable pub itrunc : Inode → Volume → Outcome (Inode × Volume)
itrunc ip v = do
  (ip1, v1) ← free_direct n_direct 0 ip v
  let a = ip1.addrs n_direct
  let free_all = do
    v2 ← free_indirect n_indirect 0 a v1
    v3 ← bfree a v2
    ok (record ip1 { addrs = update ip1.addrs n_direct 0 }, v3)
  (ip2, v2) ← if not (a == 0) then free_all else ok (ip1, v1)
  let ip3 = record ip2 { size = 0 }
  ok (ip3, iupdate ip3 v2)

abbrev pub Cache : Type 0
Cache = ℕ → Inode

abbrev pub is_cached : ℕ → ℕ → Inode → Bool
is_cached dev inum ip = ltb 0 ip.ref && ip.dev == dev && ip.inum == inum

-- What the loop of `iget` comes to: the inode, or the empty slot that it remembers.
pub data Lookup : Type 0 where
  hit : ℕ → Lookup
  miss : Option ℕ → Lookup

abbrev pub remember : Option ℕ → Inode → ℕ → Option ℕ
remember none ip i = if ip.ref == 0 then some i else none
remember (some e) ip i = some e

unfoldable pub iget_from : ℕ → ℕ → ℕ → ℕ → Option ℕ → Cache → Lookup
iget_from dev inum zero i empty c = miss empty
iget_from dev inum (suc n) i empty c =
    let rest = iget_from dev inum n (i + 1) (remember empty (c i) i) c in
    if is_cached dev inum (c i) then hit i else rest

abbrev pub get_slot : ℕ → ℕ → Cache → Lookup → Outcome (ℕ × Cache)
get_slot dev inum c (hit i) = ok (i, update c i (record (c i) { ref = (c i).ref + 1 }))
get_slot dev inum c (miss none) = panic
get_slot dev inum c (miss (some i)) =
    ok (i, update c i (record (c i) { dev = dev; inum = inum; ref = 1; valid = false }))

unfoldable pub iget : ℕ → ℕ → Cache → Outcome (ℕ × Cache)
iget dev inum c = get_slot dev inum c (iget_from dev inum n_inode 0 none c)

unfoldable pub idup : ℕ → Cache → Cache
idup i c = update c i (record (c i) { ref = (c i).ref + 1 })

-- `iput` between taking and releasing the inode's lock.
unfoldable pub drop_content : Inode → Volume → Outcome (Inode × Volume)
drop_content ip v =
    let drop = do
      (ip1, v1) ← itrunc ip v
      let ip2 = record ip1 { type = 0 }
      ok (record ip2 { valid = false }, iupdate ip2 v1)
    in if ip.valid && (ip.nlink == 0) && (ip.ref == 1) then drop else ok (ip, v)

unfoldable pub iput : ℕ → Cache → Volume → Outcome (Cache × Volume)
iput i c v = do
  (ip, v') ← drop_content (c i) v
  ok (update c i (record ip { ref = ip.ref - 1 }), v')

-- The loop of `ialloc`, `n` rounds from inode `inum` on.
unfoldable pub ialloc_from : ℕ → ℕ → ℕ → ℕ → Cache → Volume → Outcome (ℕ × Cache × Volume)
ialloc_from dev type zero inum c v = panic
ialloc_from dev type (suc n) inum c v =
    let bb = inode_block v.sb inum in
    let o = inode_offset inum in
    let found = do
      (i, c') ← iget dev inum c
      let cleared : Block = λ k. if not (ltb k o) && ltb k (o + 64) then 0 else v.blocks bb k
      ok (i, c', log_block bb (put_half o type cleared) v)
    in let rest = ialloc_from dev type n (inum + 1) c v in
      if half_at (v.blocks bb) o == 0 then found else rest

unfoldable pub ialloc : ℕ → ℕ → Cache → Volume → Outcome (ℕ × Cache × Volume)
ialloc dev type c v = ialloc_from dev type (v.sb.ninodes - 1) 1 c v

-- The superblock that `iinit` reads; the locks that it initialises are not modelled.
abbrev pub iinit : Volume → Volume
iinit v = record v { sb = readsb v }

pub record Stat : Type 0 where
  pub type : ℕ
  pub dev : ℕ
  pub ino : ℕ
  pub nlink : ℕ
  pub size : ℕ

abbrev pub stati : Inode → Stat
stati ip = record { type = ip.type; dev = ip.dev; ino = ip.inum; nlink = ip.nlink; size = ip.size }
