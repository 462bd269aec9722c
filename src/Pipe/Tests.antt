-- ===== src/Pipe/Tests.antt =====
-- Runs of the pipe, and the theorems about it at concrete inputs.
use schoolstuff.Base.{◌-◌, ◌%◌, ◌^◌, ◌≡◌, refl, true, false, List, [], ◌∷◌, arith}
use schoolstuff.Pipe.Fifo
use schoolstuff.Pipe.Fifo.{
  Call, write, read, close_write, returned, failed, asleep, readers, writers,
}
use schoolstuff.Pipe.{Pipe, pipe_size, step, put, get, run}
use schoolstuff.Pipe.Ring.{IsValid, view}
use schoolstuff.Pipe.Refine.{run_refines}

-- Two bytes in the ring, across the wrap of the write counter.
abbrev wrapped : Pipe
wrapped = record {
  slots = λ i. i % 256;
  nread = 2 ^ 32 - 1;
  nwrite = 1;
  readopen = true;
  writeopen = true;
}

abbrev script : List Call
script =
    write false 2 (7 ∷ 8 ∷ [])
    ∷ read false 3
    ∷ read false 9
    ∷ read false 1
    ∷ close_write
    ∷ read true 1
    ∷ []

wrapped-IsValid : IsValid wrapped
wrapped-IsValid = omega arith

run-wrapped :
    run wrapped script
    ≡ (returned 2 [], readers ∷ [])
      ∷ (returned 3 (255 ∷ 0 ∷ 7 ∷ []), writers ∷ [])
      ∷ (returned 1 (8 ∷ []), writers ∷ [])
      ∷ (asleep readers [], [])
      ∷ (returned 0 [], readers ∷ [])
      ∷ (returned 0 [], writers ∷ [])
      ∷ []
unfolding run step put get
run-wrapped = refl

run_refines_example : run wrapped script ≡ Fifo.run pipe_size (view wrapped) script
run_refines_example = run_refines script wrapped-IsValid
