-- ===== src/Proc/Services.antt =====
-- What proc.c calls in the other files of the kernel: kalloc.c, vm.c, file.c, fs.c and log.c, as
-- operations on a state `Res` of theirs.
use schoolstuff.Base.{ℕ}
use schoolstuff.Base.Outcome.{Outcome}

pub record Services : Type 1 where
  pub Res : Type 0
  pub kalloc : Res → ℕ × Res  -- 0 when there is no page
  pub kfree : ℕ → Res → Outcome Res
  pub copyuvm : ℕ → ℕ → Res → ℕ × Res  -- 0 when there is no memory
  pub freevm : ℕ → Res → Outcome Res
  pub filedup : ℕ → Res → Outcome Res
  pub fileclose : ℕ → Res → Outcome Res
  pub idup : ℕ → Res → Outcome Res
  pub put_cwd : ℕ → Res → Outcome Res  -- begin_op(); iput(ip); end_op()
