-- ===== src/Fs/NameTests.antt =====
-- The theorems about directories and paths at concrete inputs.
use native.Mathlib.Decide.{ℕ_discrete}
use schoolstuff.Base.{
  ℕ, zero, suc, ◌<◌, ◌≤◌, ◌≡◌, ◌≢◌, ◌⊎◌, refl, true, none, some, List, [], ◌∷◌, arith, ◌==◌,
  if◌then◌else◌, inl, inr, update,
}
use schoolstuff.Base.Outcome.{ok}
use schoolstuff.Strings.{strncmp}
use schoolstuff.Fs.{half_at, Volume}
use schoolstuff.Fs.Blocks.{in_use, free_below}
use schoolstuff.Fs.Inode.{Inode, Buffer}
use schoolstuff.Fs.Slots.{slot, Owns, content}
use schoolstuff.Fs.Icache.{Cache}
use schoolstuff.Fs.Dir.{namecmp, get_entry, dirlookup}
use schoolstuff.Fs.Paths.{namex_from, skipelem}
use schoolstuff.Fs.Elements.{slashes, Removed, skipelem_lem}
use schoolstuff.Fs.Namex.{namex_from-fuel}
use schoolstuff.Fs.Entries.{dirent_at, IsOffset, Absent}
use schoolstuff.Log.{Log}
use schoolstuff.Fs.Logging.{logged_dirlink}
use schoolstuff.Fs.Logged.{NamesChanges}
use schoolstuff.Fs.Linked.{Directory, dirlink-dirlookup}
use schoolstuff.Fs.Tests.{quiet_log, quiet-Room, tiny, empty_file, tiny-Layout, no_devices}

-- A directory with one entry, in block 10: inode 5 is its file "a".
abbrev one_entry : Inode
one_entry = record empty_file { type = 1; size = 16; addrs = λ i. if i == 0 then 10 else 0 }

abbrev entry_a : Buffer
entry_a i = if i == 0 then 5 else if i == 2 then 97 else 0

abbrev dir_disk : Volume
dir_disk = record tiny {
  blocks = λ b i.
      if b == 3
      then (if i == 0 then 15 else if i == 1 then 4 else 0)
      else if b == 10
      then entry_a i
      else 0;
}

-- "b"
abbrev name_b : Buffer
name_b i = if i == 0 then 98 else 0

abbrev dirs : Cache
dirs i = one_entry

one_slot : (k : ℕ) → slot one_entry dir_disk k ≡ (if k == 0 then 10 else 0)
unfolding slot
one_slot k = ground arith

used_blocks : (b : ℕ) → b < 4 → in_use dir_disk b ≡ true
unfolding in_use
used_blocks zero h = refl
used_blocks (suc zero) h = refl
used_blocks (suc (suc zero)) h = refl
used_blocks (suc (suc (suc zero))) h = refl
used_blocks (suc (suc (suc (suc b)))) h = absurd (omega arith)

used_ten : in_use dir_disk 10 ≡ true
unfolding in_use
used_ten = refl

dir-Owns : Owns 4 one_entry dir_disk
dir-Owns = record {
  low = used_blocks;
  good = λ k h. rw (one_slot k) (elim (ℕ_discrete k 0) [
    | yes z ↦ rw z (inr (omega arith, omega arith, used_ten))
    | no nz ↦ inl (ground arith)
  ]);
  inj = λ j k hj hk nz e. ground (arith, one_slot j, one_slot k);
}

dir-Directory : Directory 4 one_entry dir_disk
dir-Directory = record {
  well_formed = record {
    layout = tiny-Layout;
    owns = dir-Owns;
    dense = λ k hk h. let z : k ≡ 0 = omega arith in rw (one_slot k, z) (omega arith);
    small = omega arith;
    number = omega arith;
    regular = omega arith;
  };
  kind = refl;
  whole = refl;
}

no_b : Absent one_entry dir_disk name_b 0 16
unfolding namecmp strncmp slot content
no_b o lo hi aligned = let z : o ≡ 0 = omega arith in rw z refl

dir_free : free_below 40 dir_disk ≡ 35
unfolding free_below in_use
dir_free = refl

dirlink-dirlookup_example :
    (off : ℕ) × (ip' : Inode) × (v' : Volume) × (l' : Log) × (logged_dirlink no_devices 0 name_b 7
        dirs dir_disk quiet_log
      ≡ ok ((some 0, update dirs 0 ip', v'), l'))
    × NamesChanges dir_disk v' l'
    × (dirlookup no_devices 0 name_b (update dirs 0 ip') v'
        ≡ get_entry ip' (some (off, 7)) (update dirs 0 ip') v')
    × Directory 4 ip' v'
    × (off ≤ one_entry.size)
    × (off < one_entry.size → half_at (dirent_at one_entry dir_disk off) 0 ≡ 0)
    × ((o : ℕ)
        → IsOffset one_entry o
        → o ≢ off
        → dirent_at ip' v' o ≡ dirent_at one_entry dir_disk o)
dirlink-dirlookup_example =
    dirlink-dirlookup no_devices 4 0 dirs dir_disk quiet_log name_b 7 dir-Directory no_b
      (omega arith) (omega (arith, dir_free)) (omega arith) (omega arith)
      (quiet-Room 7 (omega arith))

-- "//a/b"
abbrev a_path : List ℕ
a_path = 47 ∷ 47 ∷ 97 ∷ 47 ∷ 98 ∷ []

skipelem_lem_example :
    ((skipelem a_path name_b ≡ none) × (n : ℕ) × (a_path ≡ slashes n))
    ⊎ ((rest : List ℕ) × (name' : Buffer) × (skipelem a_path name_b ≡ some (rest, name'))
        × Removed a_path name_b rest name')
skipelem_lem_example = skipelem_lem a_path name_b

namex_from-fuel_example :
    namex_from 6 no_devices true 0 a_path name_b dirs dir_disk
    ≡ namex_from 100 no_devices true 0 a_path name_b dirs dir_disk
namex_from-fuel_example =
    namex_from-fuel 6 100 no_devices true 0 a_path name_b dirs dir_disk (omega arith) (omega arith)
