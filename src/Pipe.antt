-- ===== src/Pipe.antt =====
-- cs350/cs350-18f-lab6-base/pipe.c: the ring of bytes behind a pipe. A run of a routine goes from
-- the point where it holds the pipe's lock to its return or to its call of `sleep`.
pub mod Fifo
pub mod Ring
pub mod Refine
mod Tests
use schoolstuff.Base.{
  ℕ, zero, suc, ◌+◌, ◌%◌, Bool, true, false, not, ◌&&◌, ◌||◌, List, [], ◌∷◌, ◌==◌, if◌then◌else◌,
  length, add32, update,
}
use schoolstuff.Pipe.Fifo.{
  Chan, readers, writers, Ended, returned, failed, asleep, Call, write, read, close_read,
  close_write, Reply,
}

-- PIPESIZE
abbrev pub pipe_size : ℕ
pipe_size = 512

-- `struct pipe` without its lock; `slots` is the array `data`.
pub record Pipe : Type 0 where
  pub slots : ℕ → ℕ
  pub nread : ℕ
  pub nwrite : ℕ
  pub readopen : Bool
  pub writeopen : Bool

-- What `pipealloc` stores in a new pipe.
pub pipealloc : (ℕ → ℕ) → Pipe
pipealloc page = record { slots = page; nread = 0; nwrite = 0; readopen = true; writeopen = true }

-- `p->nwrite == p->nread + PIPESIZE`, in `uint`
abbrev pub is_full : Pipe → Bool
is_full p = p.nwrite == add32 p.nread pipe_size

abbrev pub is_empty : Pipe → Bool
is_empty p = p.nread == p.nwrite

-- `p->data[p->nwrite++ % PIPESIZE] = byte`
pub put : Pipe → ℕ → Pipe
put p byte = record p {
  slots = update p.slots (p.nwrite % pipe_size) byte;
  nwrite = add32 p.nwrite 1;
}

-- `p->data[p->nread++ % PIPESIZE]`: the byte, and the pipe after it.
pub get : Pipe → ℕ × Pipe
get p = (p.slots (p.nread % pipe_size), record p { nread = add32 p.nread 1 })

-- `pipewrite` from its loop head, the list being `addr[i..n)`. The flag is `myproc()->killed`, read
-- at most once in a run.
pub pipewrite : Bool → ℕ → Pipe → List ℕ → Reply × Pipe
pipewrite killed n p [] = ((returned n [], readers ∷ []), p)
pipewrite killed n p (x ∷ xs) =
    if is_full p
    then (
      (if not p.readopen || killed then (failed, []) else (asleep writers (x ∷ xs), readers ∷ [])),
      p,
    )
    else pipewrite killed n (put p x) xs

-- The copy loop of `piperead`, `n` rounds at most.
pub copy_out : ℕ → Pipe → List ℕ × Pipe
copy_out zero p = ([], p)
copy_out (suc n) p =
    let (bs, last) = copy_out n (get p).1 in if is_empty p then ([], p) else ((get p).0 ∷ bs, last)

-- `piperead` from its loop head; `i` is the number of bytes copied.
pub piperead : Bool → ℕ → Pipe → Reply × Pipe
unfolding copy_out
piperead killed n p =
    if is_empty p && p.writeopen
    then ((if killed then (failed, []) else (asleep readers [], [])), p)
    else let (bs, p') = copy_out n p in ((returned (length bs) bs, writers ∷ []), p')

-- `pipeclose`: the pipe after it, the channel that it wakes up, and whether it frees the page.
pub pipeclose : Bool → Pipe → Pipe × Chan × Bool
pipeclose writable p =
    let p' = if writable then record p { writeopen = false } else record p { readopen = false } in
    (p', (if writable then readers else writers), not p'.readopen && not p'.writeopen)

-- One run of a caller, and a schedule of runs. No call follows the close that frees the page.
pub step : Pipe → Call → Reply × Pipe
unfolding pipewrite piperead pipeclose
step p (write killed n xs) = pipewrite killed n p xs
step p (read killed n) = piperead killed n p
step p close_read = let (p', c, _) = pipeclose false p in ((returned 0 [], c ∷ []), p')
step p close_write = let (p', c, _) = pipeclose true p in ((returned 0 [], c ∷ []), p')

pub run : Pipe → List Call → List Reply
run p [] = []
run p (c ∷ cs) = let (r, p') = step p c in r ∷ run p' cs
