-- ===== src/Fs/Tests.antt =====
-- The theorems about the file system at concrete inputs.
use schoolstuff.Base.{
  ◌∷◌, ℕ, zero, suc, ◌+◌, ◌<◌, ◌≡◌, refl, true, false, none, some, [], arith, ◌==◌, if◌then◌else◌,
  inl, update, ◌≤◌,
}
use schoolstuff.Base.Outcome.{ok}
use schoolstuff.Strings.Paste.{pasted}
use schoolstuff.Fs.{Superblock, Volume}
use schoolstuff.Fs.Blocks.{in_use, free_below}
use schoolstuff.Fs.Inode.{Inode, Buffer, Devsw, readi}
use schoolstuff.Fs.Slots.{slot, slot-direct, Layout, Owns, content}
use schoolstuff.Log.{Log}
use schoolstuff.Fs.Logging.{Room, logged_bmap, logged_writei}
use schoolstuff.Fs.Logged.{
  LoggedMaps, NamesChanges, logged_bmap_lem, logged_writei_lem, readi-logged_writei,
}
use schoolstuff.Fs.Content.{readi_lem}
use schoolstuff.Fs.Extend.{WellFormed, Extends}
use schoolstuff.Fs.Icache.{Cache, iget, idup, iget_from}
use schoolstuff.Fs.Tracked.{Tracked}
use schoolstuff.Fs.Shared.{gets, dups, sets, Reach, here, next, Reach-Tracked, iget-held}

-- Forty blocks: the first four are the boot block, the superblock, the inodes and the bitmap.
abbrev pub tiny_sb : Superblock
tiny_sb = record {
  size = 40;
  nblocks = 36;
  ninodes = 8;
  nlog = 0;
  logstart = 2;
  inodestart = 2;
  bmapstart = 3;
}

abbrev pub tiny : Volume
tiny = record {
  sb = tiny_sb;
  blocks = λ b i. if b == 3 then (if i == 0 then 15 else 0) else 0;
  logged = [];
}

-- An empty file.
abbrev pub empty_file : Inode
empty_file = record {
  dev = 1;
  inum = 1;
  ref = 1;
  valid = true;
  type = 2;
  major = 0;
  minor = 0;
  nlink = 1;
  size = 0;
  addrs = λ i. 0;
}

pub tiny-Layout : Layout tiny_sb 4
tiny-Layout = record {
  bitmap = λ b h. omega arith;
  inodes = λ i h. omega arith;
  apart = λ b i hb hi. omega arith;
  some_meta = omega arith;
  fits = omega arith;
  words = omega arith;
}

tiny-low : (b : ℕ) → b < 4 → in_use tiny b ≡ true
unfolding in_use
tiny-low zero h = refl
tiny-low (suc zero) h = refl
tiny-low (suc (suc zero)) h = refl
tiny-low (suc (suc (suc zero))) h = refl
tiny-low (suc (suc (suc (suc b)))) h = absurd (omega arith)

no_slots : (k : ℕ) → slot empty_file tiny k ≡ 0
unfolding slot
no_slots k = ground arith

tiny-Owns : Owns 4 empty_file tiny
tiny-Owns = record {
  low = tiny-low;
  good = λ k h. inl (no_slots k);
  inj = λ j k hj hk nz e. absurd (nz (no_slots j));
}

pub tiny-WellFormed : WellFormed 4 empty_file tiny
tiny-WellFormed = record {
  layout = tiny-Layout;
  owns = tiny-Owns;
  dense = λ k hk h. absurd (omega arith);
  small = omega arith;
  number = omega arith;
  regular = omega arith;
}

pub tiny_free : free_below 40 tiny ≡ 36
unfolding free_below in_use
tiny_free = refl

abbrev pub no_devices : Devsw
no_devices = record { read = λ major. none; write = λ major. none }

abbrev pub hello : Buffer
hello i = 65 + i

-- An empty log of thirty blocks, inside a transaction.
abbrev pub quiet_log : Log
quiet_log = record {
  start = 2;
  size = 30;
  outstanding = 1;
  committing = false;
  n = 0;
  block = λ i. 0;
}

pub quiet-Room : (m : ℕ) → m ≤ 29 → Room m quiet_log
quiet-Room m h = record { limit = omega (arith, h); size = omega (arith, h); open_op = omega arith }

readi-logged_writei_example :
    (ip' : Inode) × (v' : Volume) × (l' : Log) × (dst' : Buffer) × (logged_writei no_devices
        empty_file hello 0 600 tiny quiet_log
      ≡ ok ((some 600, ip', v'), l'))
    × NamesChanges tiny v' l'
    × (readi no_devices ip' 0 600 v' (λ i. 0) ≡ ok (some 600, dst', ip', v'))
    × ((i : ℕ) → i < 600 → dst' i ≡ hello i)
readi-logged_writei_example =
    readi-logged_writei no_devices 4 empty_file tiny quiet_log hello (λ i. 0) 0 600 tiny-WellFormed
      (omega arith) (omega arith) (omega (arith, tiny_free)) (quiet-Room 13 (omega arith))

logged_writei_lem_example :
    (ip' : Inode) × (v' : Volume) × (l' : Log) × (logged_writei no_devices empty_file hello 0 600
        tiny quiet_log
      ≡ ok ((some 600, ip', v'), l'))
    × Extends 4 empty_file tiny 0 600 hello ip' v'
    × NamesChanges tiny v' l'
    × (l'.n ≤ 13)
logged_writei_lem_example =
    logged_writei_lem no_devices 4 empty_file tiny quiet_log hello 0 600 tiny-WellFormed
      (omega arith) (omega arith) (omega (arith, tiny_free)) (quiet-Room 13 (omega arith))

logged_bmap_lem_example :
    LoggedMaps 4 empty_file tiny 139 quiet_log (logged_bmap empty_file 139 tiny quiet_log)
logged_bmap_lem_example =
    logged_bmap_lem 4 empty_file tiny quiet_log 139 tiny-Layout tiny-Owns (omega arith)
      (quiet-Room 5 (omega arith))

-- A file of five bytes, in block 10.
abbrev small_file : Inode
small_file = record empty_file { size = 5; addrs = λ i. if i == 0 then 10 else 0 }

abbrev with_data : Volume
with_data = record tiny { blocks = update tiny.blocks 10 hello }

readi_lem_example :
    (dst' : Buffer) × (readi no_devices small_file 2 100 with_data hello
      ≡ ok (some 3, dst', small_file, with_data))
    × ((a : ℕ) → dst' a ≡ pasted 0 3 (λ i. content small_file with_data (2 + i)) hello a)
readi_lem_example =
    readi_lem no_devices small_file with_data 2 100 hello (omega arith)
      (λ k hk h.
        let first : k ≡ 0 = omega arith in
        rw first (omega (arith, slot-direct small_file with_data 0 (omega arith))))
      (omega arith) (omega arith) (omega arith)

-- No inode is in memory.
abbrev no_inodes : Cache
no_inodes = λ i. record empty_file { ref = 0; valid = false; dev = 0; inum = 0 }

-- Inode 1 of device 1 is.
abbrev one_inode : Cache
one_inode = update no_inodes 0 (record empty_file { ref = 1; valid = false })

-- And its content has been read, by its second holder.
abbrev two_holders : Cache
two_holders = update (idup 0 one_inode) 0 (record empty_file { ref = 2 })

no_inodes-Tracked : Tracked (record { cache = no_inodes; held = [] })
no_inodes-Tracked = record {
  counted = λ i h. refl;
  unique = λ i j hi hj ri rj d n. absurd (omega (arith, ri));
}

some_calls :
    Reach
      (record { cache = no_inodes; held = [] })
      (record { cache = two_holders; held = 0 ∷ 0 ∷ [] })
unfolding iget idup iget_from
some_calls =
    next (next (next here (gets 1 1 0 refl)) (dups [] [] 0))
      (sets 0 (record empty_file { ref = 2 }) (refl, refl, refl))

Reach-Tracked_example : Tracked (record { cache = two_holders; held = 0 ∷ 0 ∷ [] })
Reach-Tracked_example = Reach-Tracked no_inodes-Tracked some_calls

iget-held_example : iget 1 1 two_holders ≡ ok (0, idup 0 two_holders)
unfolding idup
iget-held_example = iget-held two_holders (0 ∷ []) [] 0 (omega arith) no_inodes-Tracked some_calls
