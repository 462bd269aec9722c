-- ===== src/Files/Tests.antt =====
-- The theorems about the file table at concrete inputs.
use schoolstuff.Base.{count, ◌≤◌, ◌≡◌, refl, false, true, [], ◌∷◌, arith, update}
use schoolstuff.Base.Outcome.{ok}
use schoolstuff.Files.{
  Kind, File, Ftable, Release, find_free, filealloc, filedup, fileclose, nothing, closes_pipe,
  puts_inode,
}
use schoolstuff.Files.Counts.{Step, Reach, Counted, Reach-Counted, held_can_close}

abbrev no_file : File
no_file = record {
  kind = Kind.fd_none;
  ref = 0;
  readable = false;
  writable = false;
  pipe = 0;
  ip = 0;
  off = 0;
}

abbrev no_files : Ftable
no_files i = no_file

no_files-Counted : Counted (record { table = no_files; held = [] })
no_files-Counted i h = refl

-- File 0 is allocated, becomes the writing end of pipe 7, and is duplicated.
abbrev allocated : Ftable
allocated = update no_files 0 (record no_file { ref = 1 })

abbrev pipe_end : File
pipe_end = record no_file { kind = Kind.fd_pipe; ref = 1; writable = true; pipe = 7 }

abbrev opened : Ftable
opened = update allocated 0 pipe_end

abbrev shared : Ftable
shared = update opened 0 (record pipe_end { ref = 2 })

opened_twice :
    Reach (record { table = no_files; held = [] }) (record { table = shared; held = 0 ∷ 0 ∷ [] })
unfolding filealloc find_free filedup
opened_twice =
    let is_open : Reach (record { table = no_files; held = [] })
        (record { table = opened; held = 0 ∷ [] }) =
      Reach.next (Reach.next Reach.here (Step.allocs 0 refl)) (Step.sets 0 pipe_end refl) in
    Reach.next is_open (Step.dups [] [] 0 refl)

Reach-Counted_example : Counted (record { table = shared; held = 0 ∷ 0 ∷ [] })
Reach-Counted_example = Reach-Counted no_files-Counted opened_twice

held_can_close_example :
    ((t' : Ftable) × (filedup 0 shared ≡ ok t'))
    × ((t' : Ftable) × (r : Release) × (fileclose 0 shared ≡ ok (t', r))
        × (count 0 (0 ∷ []) ≡ 0
            → (shared 0).kind ≡ Kind.fd_pipe
            → r ≡ closes_pipe (shared 0).pipe (shared 0).writable)
        × (count 0 (0 ∷ []) ≡ 0 → (shared 0).kind ≡ Kind.fd_inode → r ≡ puts_inode (shared 0).ip)
        × (count 0 (0 ∷ []) ≡ 0 → (shared 0).kind ≡ Kind.fd_none → r ≡ nothing)
        × (1 ≤ count 0 (0 ∷ []) → r ≡ nothing))
held_can_close_example =
    held_can_close shared (0 ∷ []) [] 0 (omega arith) no_files-Counted opened_twice
