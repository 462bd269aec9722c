-- ===== src/Bcache.antt =====
-- cs350/cs350-18f-lab6-base/bio.c, buf.h and memide.c: the cache of disk blocks. A pointer to a buffer
-- is its number, and `bcache.head` is number NBUF. `disksize` is what ideinit computes from the size of
-- the disk image.
pub mod Ring
pub mod Moves
pub mod Scan
pub mod Choice
pub mod Sharing
pub mod Changes
pub mod Locks
pub mod View
pub mod Blocks
mod Tests
use schoolstuff.Base.{
  ℕ, zero, suc, ◌+◌, ◌-◌, Bool, true, false, not, ◌&&◌, Option, none, some, ◌==◌, leb,
  if◌then◌else◌, update,
}
use schoolstuff.Base.Outcome.{Outcome, ok, panic, panic_if, ◌>>=◌, ◌>>◌}
use schoolstuff.Log.{Block}

abbrev pub nbuf : ℕ
nbuf = 30

-- &bcache.head
abbrev pub head : ℕ
head = nbuf

-- `struct buf` without its links: B_VALID and B_DIRTY of its flags, and `locked` of its sleep lock.
pub record Buf : Type 0 where
  pub is_valid : Bool
  pub is_dirty : Bool
  pub dev : ℕ
  pub blockno : ℕ
  pub locked : Bool
  pub refcnt : ℕ
  pub bytes : Block

-- `bcache`, and the blocks of the disk in memory.
pub record Bcache : Type 0 where
  pub buf : ℕ → Buf
  pub prev : ℕ → ℕ
  pub next : ℕ → ℕ
  pub disk : ℕ → Block

abbrev pub set_buf : ℕ → Buf → Bcache → Bcache
set_buf b v s = record s { buf = update s.buf b v }

-- The four assignments that put `b` behind the head, in the order of the source.
unfoldable pub insert_first : ℕ → Bcache → Bcache
insert_first b s =
    let next1 = update s.next b (s.next head) in
    let prev1 = update s.prev b head in
    let prev2 = update prev1 (next1 head) b in record s { next = update next1 head b; prev = prev2 }

-- The two assignments that take `b` out of the list.
unfoldable pub unlink : ℕ → Bcache → Bcache
unlink b s =
    let prev1 = update s.prev (s.next b) (s.prev b) in
    record s { next = update s.next (prev1 b) (s.next b); prev = prev1 }

-- The loop of `binit`: `n` buffers from `b` on.
unfoldable pub insert_all : ℕ → ℕ → Bcache → Bcache
insert_all zero b s = s
insert_all (suc n) b s = insert_all n (b + 1) (insert_first b s)

unfoldable pub binit : Bcache → Bcache
binit s =
    insert_all nbuf 0 (record s { prev = update s.prev head head; next = update s.next head head })

-- The loops of `bget`, on fuel: the first buffer from `b` on, along `link`, that passes the test.
unfoldable pub follow : (Buf → Bool) → (ℕ → ℕ) → (ℕ → Buf) → ℕ → ℕ → Outcome (Option ℕ)
follow test link buf zero b = panic
follow test link buf (suc n) b =
    let rest = follow test link buf n (link b) in
    if b == head then ok none else if test (buf b) then ok (some b) else rest

abbrev pub holds : ℕ → ℕ → Buf → Bool
holds dev n v = (v.dev == dev) && (v.blockno == n)

abbrev pub is_recyclable : Buf → Bool
is_recyclable v = (v.refcnt == 0) && not v.is_dirty

-- A buffer that has the block, and one that is recycled for it.
abbrev pub share : ℕ → Bcache → Bcache
share b s = set_buf b (record (s.buf b) { refcnt = (s.buf b).refcnt + 1 }) s

abbrev pub recycle : ℕ → ℕ → ℕ → Bcache → Bcache
recycle dev n b s =
    set_buf b
      (record (s.buf b) { dev = dev; blockno = n; is_valid = false; is_dirty = false; refcnt = 1 })
      s

abbrev pub recycled : ℕ → ℕ → Bcache → Option ℕ → Outcome (ℕ × Bcache)
recycled dev n s (some b) = ok (b, recycle dev n b s)
recycled dev n s none = panic

abbrev pub use_found : ℕ → ℕ → Bcache → Option ℕ → Outcome (ℕ × Bcache)
use_found dev n s (some b) = ok (b, share b s)
use_found dev n s none = do
  unused ← follow is_recyclable s.prev s.buf (suc nbuf) (s.prev head)
  recycled dev n s unused

-- `bget` up to its call of acquiresleep.
unfoldable pub bget : ℕ → ℕ → Bcache → Outcome (ℕ × Bcache)
bget dev n s = do
  cached ← follow (holds dev n) s.next s.buf (suc nbuf) (s.next head)
  use_found dev n s cached

-- `brelse`, whose call of releasesleep wakes the processes up that wait for the lock.
unfoldable pub brelse : ℕ → Bcache → Outcome Bcache
brelse b s = do
  panic_if (not (s.buf b).locked)
  let left = (s.buf b).refcnt - 1
  let s1 = set_buf b (record (s.buf b) { locked = false; refcnt = left }) s
  ok (if left == 0 then insert_first b (unlink b s1) else s1)

module _ (disksize : ℕ) where
  abbrev pub sync : ℕ → Bcache → Bcache
  sync b s =
      let v = s.buf b in
      if v.is_dirty
      then record s {
        buf = update s.buf b (record v { is_dirty = false; is_valid = true });
        disk = update s.disk v.blockno v.bytes;
      }
      else set_buf b (record v { bytes = s.disk v.blockno; is_valid = true }) s

  unfoldable pub iderw : ℕ → Bcache → Outcome Bcache
  iderw b s = do
    let v = s.buf b
    panic_if (not v.locked)
    panic_if (v.is_valid && not v.is_dirty)
    panic_if (not (v.dev == 1))
    panic_if (leb disksize v.blockno)
    ok (sync b s)

  unfoldable pub bwrite : ℕ → Bcache → Outcome Bcache
  bwrite b s = do
    panic_if (not (s.buf b).locked)
    iderw b (set_buf b (record (s.buf b) { is_dirty = true }) s)

  -- The rest of `bread` once acquiresleep has the lock.
  unfoldable pub bread_locked : ℕ → Bcache → Outcome Bcache
  bread_locked b s =
      let s1 = set_buf b (record (s.buf b) { locked = true }) s in
      if (s.buf b).is_valid then ok s1 else iderw b s1
