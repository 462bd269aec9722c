-- ===== src/Pipe/Fifo.antt =====
-- What the users of a pipe see: a bounded first-in first-out queue of bytes with two open ends.
use schoolstuff.Base.{
  ℕ, ◌-◌, Bool, not, ◌&&◌, ◌||◌, List, [], ◌∷◌, ◌++◌, leb, ◌==◌, if◌then◌else◌, length, take, drop,
}

-- The two channels on which processes sleep: `&p->nread` and `&p->nwrite`.
pub data Chan : Type 0 where
  readers writers : Chan

-- How a run of a routine ends: it returns a count with the bytes that it copied out, it returns
-- -1, or it sleeps on a channel with some bytes left to write.
pub data Ended : Type 0 where
  returned : ℕ → List ℕ → Ended
  failed : Ended
  asleep : Chan → List ℕ → Ended

-- The end of a run and the channels that it has woken up.
abbrev pub Reply : Type 0
Reply = Ended × List Chan

-- The runs that processes make: the flag says whether the caller has been killed.
pub data Call : Type 0 where
  write : Bool → ℕ → List ℕ → Call
  read : Bool → ℕ → Call
  close_read : Call
  close_write : Call

pub record Fifo : Type 0 where
  pub queue : List ℕ
  pub can_read : Bool
  pub can_write : Bool

module _ (cap : ℕ) where
  abbrev pub room : Fifo → ℕ
  room q = cap - length q.queue

  -- As many bytes as fit go in; the rest waits for a reader, if there can be one.
  unfoldable pub offer : Bool → ℕ → Fifo → List ℕ → Reply × Fifo
  offer killed n q xs = (
    if leb (length xs) (room q)
        then (returned n [], readers ∷ [])
        else if not q.can_read || killed
        then (failed, [])
        else (asleep writers (drop (room q) xs), readers ∷ []),
    record q { queue = q.queue ++ take (room q) xs },
  )

-- The oldest bytes come out, unless there are none and a writer may still come.
unfoldable pub poll : Bool → ℕ → Fifo → Reply × Fifo
poll killed n q =
    if (length q.queue == 0) && q.can_write
    then (if killed then (failed, []) else (asleep readers [], []), q)
    else (
      (returned (length (take n q.queue)) (take n q.queue), writers ∷ []),
      record q { queue = drop n q.queue },
    )

-- Closing an end wakes the other side.
unfoldable pub step : ℕ → Fifo → Call → Reply × Fifo
unfolding offer poll
step cap q (write killed n xs) = offer cap killed n q xs
step cap q (read killed n) = poll killed n q
step cap q close_read = ((returned 0 [], writers ∷ []), record q { can_read = Bool.false })
step cap q close_write = ((returned 0 [], readers ∷ []), record q { can_write = Bool.false })

unfoldable pub run : ℕ → Fifo → List Call → List Reply
run cap q [] = []
run cap q (c ∷ cs) = let (r, q') = step cap q c in r ∷ run cap q' cs
