-- ===== src/Fs.antt =====
-- cs350/cs350-18f-lab6-base/fs.c and fs.h: the blocks, inodes and directories of the file system, on
-- its one device. A block is its bytes; `log_block` is a change of a cached block and a note
-- that log_write is called for it: the volume keeps the blocks in the order of these calls. It has
-- no panic of its own. Fs/Logging makes the calls, in the log of log.c and with its panics, Fs/Called counts them, and
-- Fs/Logged is about bmap and writei with them, Fs/Linked about dirlink.
pub mod Bits
pub mod Blocks
pub mod Inode
pub mod Slots
pub mod Fill
pub mod Bmap
pub mod Change
pub mod Content
pub mod Round
pub mod Write
pub mod Extend
pub mod Logging
pub mod Called
pub mod Logged
pub mod Icache
pub mod Calls
pub mod Tracked
pub mod Shared
pub mod Dir
pub mod Paths
pub mod Elements
pub mod Namex
pub mod Entries
pub mod Links
pub mod Linked
pub mod Tests
mod NameTests
use schoolstuff.Base.{
  ℕ, zero, suc, ◌+◌, ◌-◌, ◌*◌, ◌/◌, ◌%◌, ◌^◌, Bool, true, false, not, ◌&&◌, ◌||◌, Option, none,
  some, List, [], ◌∷◌, ltb, leb, ◌==◌, if◌then◌else◌, update, min, add32,
}
use schoolstuff.Base.Outcome.{Outcome, ok, panic, panic_if, ◌>>=◌, ◌>>◌}
use schoolstuff.Strings.Paste.{pasted}

-- BSIZE, BPB, NDIRECT, NINDIRECT, MAXFILE, IPB
abbrev pub block_size : ℕ
block_size = 512

abbrev pub bits_per_block : ℕ
bits_per_block = block_size * 8

abbrev pub n_direct : ℕ
n_direct = 12

abbrev pub n_indirect : ℕ
n_indirect = block_size / 4

abbrev pub max_file : ℕ
max_file = n_direct + n_indirect

abbrev pub inodes_per_block : ℕ
inodes_per_block = block_size / 64

abbrev pub Block : Type 0
Block = ℕ → ℕ

pub record Superblock : Type 0 where
  pub size : ℕ
  pub nblocks : ℕ
  pub ninodes : ℕ
  pub nlog : ℕ
  pub logstart : ℕ
  pub inodestart : ℕ
  pub bmapstart : ℕ

pub record Volume : Type 0 where
  pub sb : Superblock
  pub blocks : ℕ → Block
  pub logged : List ℕ

abbrev pub log_block : ℕ → Block → Volume → Volume
log_block b d v = record v { blocks = update v.blocks b d; logged = b ∷ v.logged }

-- A `uint` and a `short` in a block, the low byte first.
abbrev pub word_at : Block → ℕ → ℕ
word_at d o = d o + d (o + 1) * 2 ^ 8 + d (o + 2) * 2 ^ 16 + d (o + 3) * 2 ^ 24

abbrev pub put_word : ℕ → ℕ → Block → Block
put_word o w d =
    update
      (update (update (update d o (w % 256)) (o + 1) (w / 2 ^ 8 % 256)) (o + 2) (w / 2 ^ 16 % 256))
      (o + 3) (w / 2 ^ 24 % 256)

abbrev pub half_at : Block → ℕ → ℕ
half_at d o = d o + d (o + 1) * 2 ^ 8

abbrev pub put_half : ℕ → ℕ → Block → Block
put_half o w d = update (update d o (w % 256)) (o + 1) (w / 2 ^ 8 % 256)

unfoldable pub readsb : Volume → Superblock
readsb v =
    let d = v.blocks 1 in
    record {
      size = word_at d 0;
      nblocks = word_at d 4;
      ninodes = word_at d 8;
      nlog = word_at d 12;
      logstart = word_at d 16;
      inodestart = word_at d 20;
      bmapstart = word_at d 24;
    }

unfoldable pub bzero : ℕ → Volume → Volume
bzero bno v = log_block bno (λ i. 0) v

-- The bit `1 << k` of a byte, and the byte with it set and cleared.
abbrev pub bit_of : ℕ → ℕ → ℕ
bit_of byte k = byte / 2 ^ k % 2

abbrev pub set_bit : ℕ → ℕ → ℕ
set_bit byte k = byte + (1 - bit_of byte k) * 2 ^ k

abbrev pub clear_bit : ℕ → ℕ → ℕ
clear_bit byte k = byte - bit_of byte k * 2 ^ k

abbrev pub is_free : Block → ℕ → Bool
is_free d bi = bit_of (d (bi / 8)) (bi % 8) == 0

abbrev pub mark : ℕ → Block → Block
mark bi d = update d (bi / 8) (set_bit (d (bi / 8)) (bi % 8))

abbrev pub unmark : ℕ → Block → Block
unmark bi d = update d (bi / 8) (clear_bit (d (bi / 8)) (bi % 8))

-- BBLOCK
abbrev pub bitmap_block : Superblock → ℕ → ℕ
bitmap_block sb b = b / bits_per_block + sb.bmapstart

-- The inner loop of `balloc`, `n` bits from `bi` on.
unfoldable pub find_bit : ℕ → ℕ → Block → Option ℕ
find_bit zero bi d = none
find_bit (suc n) bi d = let rest = find_bit n (bi + 1) d in if is_free d bi then some bi else rest

abbrev pub take_bit : ℕ → Volume → Outcome (ℕ × Volume) → Option ℕ → Outcome (ℕ × Volume)
take_bit b v rest none = rest
take_bit b v rest (some bi) =
    let bb = bitmap_block v.sb b in
    ok (b + bi, bzero (b + bi) (log_block bb (mark bi (v.blocks bb)) v))

-- The outer loop, on fuel: a round for each block of the bitmap.
unfoldable pub balloc_from : ℕ → ℕ → Volume → Outcome (ℕ × Volume)
balloc_from zero b v = panic
balloc_from (suc fuel) b v =
    let rest = balloc_from fuel (b + bits_per_block) v in
    if ltb b v.sb.size
    then take_bit b v rest
        (find_bit (min bits_per_block (v.sb.size - b)) 0 (v.blocks (bitmap_block v.sb b)))
    else panic

unfoldable pub balloc : Volume → Outcome (ℕ × Volume)
unfolding balloc_from find_bit bzero
balloc v = balloc_from (suc v.sb.size) 0 v

unfoldable pub bfree : ℕ → Volume → Outcome Volume
unfolding readsb
bfree b v0 = do
  let v = record v0 { sb = readsb v0 }
  let bb = bitmap_block v.sb b
  let bi = b % bits_per_block
  panic_if (is_free (v.blocks bb) bi)
  ok (log_block bb (unmark bi (v.blocks bb)) v)
