-- ===== src/Files/Io/Tests.antt =====
-- The theorems about reading and writing files at concrete inputs.
use schoolstuff.Base.{ℕ, ◌<◌, ◌≡◌, refl, true, false, some, arith}
use schoolstuff.Base.Outcome.{ok}
use schoolstuff.Fs.{Volume}
use schoolstuff.Fs.Inode.{Inode, Buffer}
use schoolstuff.Fs.Tests.{tiny, empty_file, tiny-WellFormed, tiny_free, no_devices, hello}
use schoolstuff.Files.{Kind, File}
use schoolstuff.Files.Io.{returns, advance, fileread, filewrite}
use schoolstuff.Files.Io.Chunks.{Open, Stored, moved, filewrite_lem}
use schoolstuff.Files.Io.Reread.{fileread-filewrite}

abbrev writer : File
writer = record {
  kind = Kind.fd_inode;
  ref = 1;
  readable = false;
  writable = true;
  pipe = 0;
  ip = 0;
  off = 0;
}

abbrev reader : File
reader = record writer { readable = true; writable = false }

empty-Open : Open 4 empty_file tiny
empty-Open = record { well_formed = tiny-WellFormed; valid = refl; used = omega arith }

-- Two chunks.
filewrite_lem_example :
    (ip' : Inode) × (v' : Volume) × (filewrite no_devices writer empty_file hello 2000 tiny
      ≡ ok (returns (some 2000) (moved writer 2000, ip', v')))
    × Stored 4 empty_file tiny 0 2000 hello ip' v'
filewrite_lem_example =
    filewrite_lem 4 no_devices writer empty_file hello 2000 tiny refl refl empty-Open (omega arith)
      (omega arith) (omega (arith, tiny_free))

fileread-filewrite_example :
    (ip' : Inode) × (v' : Volume) × (dst' : Buffer) × (filewrite no_devices writer empty_file hello
        2000 tiny
      ≡ ok (returns (some 2000) (moved writer 2000, ip', v')))
    × (fileread no_devices reader ip' 2000 hello v'
        ≡ ok (returns (some 2000) (dst', advance reader (some 2000), ip', v')))
    × ((i : ℕ) → i < 2000 → dst' i ≡ hello i)
fileread-filewrite_example =
    fileread-filewrite 4 no_devices writer reader empty_file hello hello 2000 tiny refl refl refl
      refl refl empty-Open (omega arith) (omega arith) (omega (arith, tiny_free))
