-- ===== src/Log.antt =====
-- cs350/cs350-18f-lab6-base/log.c: the write-ahead log of the file system, over the blocks of one
-- disk. `bread` and `bwrite` are those of bio.c: a block is read from memory, where a write leaves
-- a copy, and `power` is the number of block writes that still reach the disk before a crash.
pub mod Loops
pub mod Recovery
pub mod Crash
pub mod Atomic
pub mod Absorb
pub mod Calls
pub mod Space
pub mod TooBig
mod Tests
use schoolstuff.Base.{
  ℕ, zero, suc, ◌+◌, ◌-◌, ◌*◌, Bool, true, false, not, ◌&&◌, ◌||◌, Option, none, some, ltb, leb,
  ◌==◌, if◌then◌else◌, update,
}
use schoolstuff.Base.Outcome.{Outcome, ok, panic, panic_if, ◌>>=◌, ◌>>◌}

-- MAXOPBLOCKS and LOGSIZE
abbrev pub max_op_blocks : ℕ
max_op_blocks = 10

abbrev pub log_size : ℕ
log_size = max_op_blocks * 3

-- A block as its 32-bit words.
abbrev pub Block : Type 0
Block = ℕ → ℕ

-- The blocks on disk and as `bread` returns them.
pub record Store : Type 0 where
  pub disk : ℕ → Block
  pub mem : ℕ → Block
  pub power : ℕ

abbrev pub bread : Store → ℕ → Block
bread s b = s.mem b

-- The writes after the last one that the power allows are lost.
unfoldable pub bwrite : ℕ → Block → Store → Store
bwrite b d s = record s {
  disk = if s.power == 0 then s.disk else update s.disk b d;
  mem = update s.mem b d;
  power = s.power - 1;
}

-- The memory after a restart is what the disk holds.
abbrev pub boot : (ℕ → Block) → ℕ → Store
boot d power = record { disk = d; mem = d; power = power }

-- `struct log` with its header: `n` and `block` are `lh.n` and `lh.block`.
pub record Log : Type 0 where
  pub start : ℕ
  pub size : ℕ
  pub outstanding : ℕ
  pub committing : Bool
  pub n : ℕ
  pub block : ℕ → ℕ

-- The loop of `install_trans`, `r` rounds from `tail`.
unfoldable pub install_from : Log → ℕ → ℕ → Store → Store
install_from l zero tail s = s
install_from l (suc r) tail s =
    install_from l r (tail + 1) (bwrite (l.block tail) (bread s (l.start + tail + 1)) s)

unfoldable pub install_trans : Log → Store → Store
install_trans l s = install_from l l.n 0 s

-- The header as it lies in a block: `n`, then the block numbers.
unfoldable pub read_head : Log → Store → Log
read_head l s =
    let buf = bread s l.start in
    record l { n = buf 0; block = λ i. if ltb i (buf 0) then buf (i + 1) else l.block i }

abbrev pub header : Log → Block → Block
header l buf w = if w == 0 then l.n else if leb w l.n then l.block (w - 1) else buf w

unfoldable pub write_head : Log → Store → Store
write_head l s = bwrite l.start (header l (bread s l.start)) s

-- `log.lh.n = 0`
abbrev pub emptied : Log → Log
emptied l = record l { n = 0 }

unfoldable pub recover_from_log : Log → Store → Log × Store
recover_from_log l s =
    let l' = read_head l s in (emptied l', write_head (emptied l') (install_trans l' s))

-- `initlog`: words 3 and 4 of the superblock, block 1, are `nlog` and `logstart`. The size of the
-- header is a constant below that of a block.
unfoldable pub initlog : Log → Store → Log × Store
unfolding recover_from_log
initlog l s = let sb = bread s 1 in recover_from_log (record l { start = sb 4; size = sb 3 }) s

-- The loop of `write_log`.
unfoldable pub write_log_from : Log → ℕ → ℕ → Store → Store
write_log_from l zero tail s = s
write_log_from l (suc r) tail s =
    write_log_from l r (tail + 1) (bwrite (l.start + tail + 1) (bread s (l.block tail)) s)

unfoldable pub write_log : Log → Store → Store
write_log l s = write_log_from l l.n 0 s

unfoldable pub commit : Log → Store → Log × Store
commit l s =
    if ltb 0 l.n
    then (let logged = write_head l (write_log l s) in
        (emptied l, write_head (emptied l) (install_trans l logged)))
    else (l, s)

-- One round of the loop of `begin_op`: `none` means that the caller sleeps on the log.
unfoldable pub begin_op : Log → Option Log
begin_op l =
    if l.committing
    then none
    else if ltb log_size (l.n + (l.outstanding + 1) * max_op_blocks)
    then none
    else some (record l { outstanding = l.outstanding + 1 })

-- `end_op` up to the commit: the flag says whether to commit. `outstanding` is at least 1 there.
unfoldable pub end_op : Log → Outcome (Log × Bool)
end_op l = do
  panic_if l.committing
  let left = l.outstanding - 1
  ok (
      if left == 0
      then (record l { outstanding = left; committing = true }, true)
      else (record l { outstanding = left }, false))

-- The rest of `end_op`, after the flag.
unfoldable pub end_commit : Log → Store → Log × Store
unfolding commit
end_commit l s = let (l', s') = commit l s in (record l' { committing = false }, s')

-- The search of `log_write` for the block: its index, or `lh.n`.
unfoldable pub absorb_from : Log → ℕ → ℕ → ℕ → ℕ
absorb_from l zero i b = i
absorb_from l (suc r) i b =
    let rest = absorb_from l r (i + 1) b in if l.block i == b then i else rest

-- `log_write` of block `b`.
unfoldable pub log_write : ℕ → Log → Outcome Log
unfolding absorb_from
log_write b l = do
  panic_if (leb log_size l.n || leb (l.size - 1) l.n)
  panic_if (ltb l.outstanding 1)
  let i = absorb_from l l.n 0 b
  ok (record l { block = update l.block i b; n = if i == l.n then l.n + 1 else l.n })
