-- ===== src/Fs/Dir.antt =====
-- fs.c: directories. A directory is locked by the caller, and `i` is its index in the table of inodes.
use schoolstuff.Base.{
  ℕ, zero, suc, ◌+◌, ◌-◌, Bool, false, not, ◌&&◌, Option, none, some, ltb, ◌==◌, if◌then◌else◌,
  update, add32,
}
use schoolstuff.Base.Outcome.{Outcome, ok, panic, panic_if, ◌>>=◌, ◌>>◌}
use schoolstuff.Strings.{strncmp, strncpy}
use schoolstuff.Fs.{Volume, half_at, put_half}
use schoolstuff.Fs.Inode.{Inode, Buffer, Devsw, readi, writei}
use schoolstuff.Fs.Icache.{Cache, iget, iput}

-- T_DIR and DIRSIZ; a `dirent` is its 16 bytes.
abbrev pub t_dir : ℕ
t_dir = 1

abbrev pub dirsiz : ℕ
dirsiz = 14

abbrev pub dirent_size : ℕ
dirent_size = dirsiz + 2

-- The first `n` bytes of a buffer, and another one after them.
abbrev pub beside : ℕ → Buffer → Buffer → Buffer
beside n s t i = if ltb i n then s i else t (i - n)

unfoldable pub namecmp : Buffer → Buffer → ℕ
namecmp s t = strncmp (beside dirsiz s t) 0 dirsiz dirsiz

abbrev pub name_of : Buffer → Buffer
name_of de i = de (i + 2)

-- A count that readi or writei returns.
abbrev pub is_count : Option ℕ → ℕ → Bool
is_count none n = false
is_count (some r) n = r == n

-- A readi of `sizeof(de)` bytes that panics if it returns another count. It fills the whole of `de`.
unfoldable pub read_dirent : Devsw → ℕ → Inode → Volume → Outcome (Buffer × Inode × Volume)
read_dirent k off ip v = do
  (r, de, ip', v') ← readi k ip off dirent_size v (λ i. 0)
  panic_if (not (is_count r dirent_size))
  ok (de, ip', v')

abbrev pub is_entry : Buffer → Buffer → Bool
is_entry name de = not (half_at de 0 == 0) && (namecmp name (name_of de) == 0)

-- The loop of `dirlookup`, on fuel: the offset and the number of the inode, if there is one.
unfoldable pub dirlookup_from :
    ℕ → Devsw → ℕ → Buffer → Inode → Volume → Outcome (Option (ℕ × ℕ) × Inode × Volume)
dirlookup_from zero k off name ip v = panic
dirlookup_from (suc fuel) k off name ip v =
    let look = do
      (de, ip', v') ← read_dirent k off ip v
      let rest = dirlookup_from fuel k (add32 off dirent_size) name ip' v'
      if is_entry name de then ok (some (off, half_at de 0), ip', v') else rest
    in if ltb off ip.size then look else ok (none, ip, v)

abbrev pub get_entry :
    Inode → Option (ℕ × ℕ) → Cache → Volume → Outcome (Option (ℕ × ℕ) × Cache × Volume)
get_entry ip none c v = ok (none, c, v)
get_entry ip (some (off, inum)) c v = do (j, c') ← iget ip.dev inum c; ok (some (off, j), c', v)

unfoldable pub dirlookup :
    Devsw → ℕ → Buffer → Cache → Volume → Outcome (Option (ℕ × ℕ) × Cache × Volume)
dirlookup k i name c v = do
  panic_if (not ((c i).type == t_dir))
  (r, ip, v') ← dirlookup_from (suc (c i).size) k 0 name (c i) v
  get_entry ip r (update c i ip) v'

-- The loop of `dirlink` that looks for an empty entry, on fuel: its offset.
unfoldable pub find_empty : ℕ → Devsw → ℕ → Inode → Volume → Outcome (ℕ × Inode × Volume)
find_empty zero k off ip v = panic
find_empty (suc fuel) k off ip v =
    let look = do
      (de, ip', v') ← read_dirent k off ip v
      let rest = find_empty fuel k (add32 off dirent_size) ip' v'
      if half_at de 0 == 0 then ok (off, ip', v') else rest
    in if ltb off ip.size then look else ok (off, ip, v)

-- The entry that `dirlink` writes: strncpy fills the name, whatever `de` was.
unfoldable pub new_entry : Buffer → ℕ → Buffer
new_entry name inum =
    put_half 0 inum (strncpy 2 dirent_size dirsiz (beside dirent_size (λ i. 0) name))

-- What `dirlink` does with a name that dirlookup has found, and with one that it has not.
abbrev pub link_entry :
    Devsw → ℕ → Buffer → ℕ → Option (ℕ × ℕ) → Cache → Volume → Outcome (Option ℕ × Cache × Volume)
link_entry k i name inum (some (off, j)) c v = do (c', v') ← iput j c v; ok (none, c', v')
link_entry k i name inum none c v = do
  (off, ip, v1) ← find_empty (suc (c i).size) k 0 (c i) v
  (r, ip', v2) ← writei k ip (new_entry name inum) off dirent_size v1
  panic_if (not (is_count r dirent_size))
  ok (some 0, update c i ip', v2)

unfoldable pub dirlink :
    Devsw → ℕ → Buffer → ℕ → Cache → Volume → Outcome (Option ℕ × Cache × Volume)
dirlink k i name inum c v = do
  (r, c', v') ← dirlookup k i name c v
  link_entry k i name inum r c' v'
