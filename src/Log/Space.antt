-- ===== src/Log/Space.antt =====
-- log.c: the operations of the file system share the log. Each may write at most MAXOPBLOCKS
-- blocks, and `begin_op` lets one in only if the log has room for all that are in.
use mathlib.Core.Path.{subst}
use schoolstuff.Base.{
  ℕ, suc, ◌+◌, ◌-◌, ◌*◌, ◌≤◌, ◌<◌, ◌≡◌, refl, Bool, true, some, List, [], ◌∷◌, ◌++◌, length,
  length-append, All, arith, ◌==◌, sym, ap, ◌∙◌,
}
use schoolstuff.Base.Outcome.{ok, OnOk-ok}
use schoolstuff.Log.{Log, Store, log_size, max_op_blocks, begin_op, end_op, end_commit, log_write}
use schoolstuff.Log.Calls.{
  Begun, OnSome, begin_op-Begun, Ends, end_op-Ends, end_commit_lem, Distinct-ext,
}
use schoolstuff.Log.Absorb.{HasRoom, Logs, Distinct, log_write_lem}

-- The log with the operations that are open on it: how many blocks each may still write.
pub record System : Type 0 where
  pub log : Log
  pub ops : List ℕ

-- One call of an operation. The blocks that a step writes are within the budget of the operation.
pub data Step : System → System → Type 0 where
  begins :
      {l l' : Log} {ops : List ℕ}
      → begin_op l ≡ some l'
      → Step (record { log = l; ops = ops }) (record { log = l'; ops = max_op_blocks ∷ ops })
  writes :
      {l l' : Log} (before after : List ℕ) (k b : ℕ)
      → log_write b l ≡ ok l'
      → Step
          (record { log = l; ops = before ++ suc k ∷ after })
          (record { log = l'; ops = before ++ k ∷ after })
  ends :
      {l l' : Log} {do_commit : Bool} (before after : List ℕ) (k : ℕ)
      → end_op l ≡ ok (l', do_commit)
      → Step
          (record { log = l; ops = before ++ k ∷ after })
          (record { log = l'; ops = before ++ after })
  commits :
      {l : Log} {ops : List ℕ} (s : Store)
      → l.committing ≡ true
      → Step (record { log = l; ops = ops }) (record { log = (end_commit l s).0; ops = ops })

pub data Reach (s : System) : System → Type 0 where
  here : Reach s s
  next : {u v : System} → Reach s u → Step u v → Reach s v

abbrev pub sum : List ℕ → ℕ
sum [] = 0
sum (k ∷ ks) = k + sum ks

abbrev pub InBudget : ℕ → Type 0
InBudget k = k ≤ max_op_blocks

-- What the log holds and what the open operations may still write fit in the log.
pub record Fits (s : System) : Type 0 where
  pub open_ops : s.log.outstanding ≡ length s.ops
  pub reserved : s.log.n + sum s.ops ≤ log_size
  pub budgets : All InBudget s.ops
  pub idle : s.log.committing ≡ true → s.ops ≡ []
  pub distinct : Distinct s.log
  pub size : log_size < s.log.size

sum-append : (xs ys : List ℕ) → sum (xs ++ ys) ≡ sum xs + sum ys
sum-append [] ys = omega arith
sum-append (x ∷ xs) ys = omega (arith, sum-append xs ys)

empty-of-length : {A : Type 0} (xs : List A) → length xs ≡ 0 → xs ≡ []
empty-of-length [] h = refl
empty-of-length (x ∷ xs) h = absurd (omega arith)

sum-InBudget : (ops : List ℕ) → All InBudget ops → sum ops ≤ length ops * max_op_blocks
sum-InBudget [] h = omega arith
sum-InBudget (k ∷ ks) (hk, hks) = omega (arith, hk, sum-InBudget ks hks)

-- One operation in the middle changes its budget, or goes.
All-middle :
    (P : ℕ → Type 0) (xs ys : List ℕ) (k : ℕ)
    → All P (xs ++ k ∷ ys)
    → P k × All P (xs ++ ys) × ((m : ℕ) → P m → All P (xs ++ m ∷ ys))
All-middle P [] ys k (hk, hys) = (hk, hys, λ m hm. (hm, hys))
All-middle P (x ∷ xs) ys k (hx, rest) =
    let (hk, without, put) = All-middle P xs ys k rest in
    (hk, (hx, without), λ m hm. (hx, put m hm))

-- With one of the operations in the middle taken out.
length-middle : (xs ys : List ℕ) (k : ℕ) → length (xs ++ k ∷ ys) ≡ length (xs ++ ys) + 1
length-middle xs ys k = omega (arith, length-append xs (k ∷ ys), length-append xs ys)

sum-middle : (xs ys : List ℕ) (k : ℕ) → sum (xs ++ k ∷ ys) ≡ sum (xs ++ ys) + k
sum-middle xs ys k = omega (arith, sum-append xs (k ∷ ys), sum-append xs ys)

-- An operation with budget left can log a block: the tests of `log_write` hold.
Fits-HasRoom :
    (l : Log) (xs ys : List ℕ) (k : ℕ)
    → Fits (record { log = l; ops = xs ++ suc k ∷ ys })
    → HasRoom l
Fits-HasRoom l xs ys k fits =
    let total = sum-middle xs ys (suc k) in
    let many = length-middle xs ys (suc k) in
    (
      omega (arith, fits.reserved),
      omega (arith, fits.reserved, fits.size),
      omega (arith, fits.open_ops),
    )

begins-Fits :
    (l l' : Log) (ops : List ℕ)
    → Begun l l'
    → Fits (record { log = l; ops = ops })
    → Fits (record { log = l'; ops = max_op_blocks ∷ ops })
begins-Fits l l' ops begun fits =
    let (same, same_block, same_size) = begun.entries in
    record {
      open_ops = omega (arith, begun.joined, fits.open_ops);
      reserved = omega (arith, begun.room, fits.open_ops, sum-InBudget ops fits.budgets, same);
      budgets = (omega arith, fits.budgets);
      idle = λ busy. absurd (grind (arith, busy, begun.free'));
      distinct = Distinct-ext l l' same same_block fits.distinct;
      size = omega (arith, fits.size, same_size);
    }

writes-Fits :
    (l l' : Log) (xs ys : List ℕ) (k b : ℕ)
    → log_write b l ≡ ok l'
    → Fits (record { log = l; ops = xs ++ suc k ∷ ys })
    → Fits (record { log = l'; ops = xs ++ k ∷ ys })
writes-Fits l l' xs ys k b e fits =
    let (l1, e1, logs1) = log_write_lem b l (Fits-HasRoom l xs ys k fits) in
    let logs : Logs b l l' = OnOk-ok (Logs b l) (rw e1 logs1) e in
    let many = length-middle xs ys (suc k) in
    let many' = length-middle xs ys k in
    let total = sum-middle xs ys (suc k) in
    let total' = sum-middle xs ys k in
    let (opened, same_size, same_busy) = logs.rest in
    record {
      open_ops = omega (arith, opened, fits.open_ops);
      reserved = omega (arith, logs.grows, fits.reserved);
      budgets =
          let (hk, _, put) = All-middle InBudget xs ys (suc k) fits.budgets in
          put k (omega (arith, hk));
      idle = λ busy. absurd (omega (arith, ap length (fits.idle (sym same_busy ∙ busy)), many));
      distinct = logs.distinct fits.distinct;
      size = omega (arith, fits.size, same_size);
    }

ended-Fits :
    (l l' : Log) (xs ys : List ℕ) (k : ℕ) (c : Bool)
    → Ends l l' c
    → Fits (record { log = l; ops = xs ++ k ∷ ys })
    → Fits (record { log = l'; ops = xs ++ ys })
ended-Fits l l' xs ys k c done fits =
    let many = length-middle xs ys k in
    let total = sum-middle xs ys k in
    let (same, same_block, same_size) = done.entries in
    record {
      open_ops = omega (arith, done.left, fits.open_ops);
      reserved = omega (arith, same, fits.reserved);
      budgets = (All-middle InBudget xs ys k fits.budgets).1;
      idle = λ busy.
          let none_left : (l.outstanding - 1 == 0) ≡ true = sym done.last ∙ busy in
          empty-of-length (xs ++ ys) (ground (arith, fits.open_ops));
      distinct = Distinct-ext l l' same same_block fits.distinct;
      size = omega (arith, fits.size, same_size);
    }

commits-Fits :
    (l : Log) (s : Store) (ops : List ℕ)
    → Fits (record { log = l; ops = ops })
    → Fits (record { log = (end_commit l s).0; ops = ops })
commits-Fits l s ops fits =
    let (free, empty, same_block, same_size, opened) = end_commit_lem l s in
    record {
      open_ops = opened ∙ fits.open_ops;
      reserved = omega (arith, empty, fits.reserved);
      budgets = fits.budgets;
      idle = λ busy. absurd (grind (arith, busy, free));
      distinct = λ i j hi hj e. absurd (omega (arith, empty));
      size = omega (arith, fits.size, same_size);
    }

Step-Fits : {u v : System} → Fits u → Step u v → Fits v
Step-Fits fits (begins {l} {l'} {ops} e) =
    begins-Fits l l' ops (subst (OnSome (Begun l)) e (begin_op-Begun l)) fits
Step-Fits fits (writes {l} {l'} before after k b e) = writes-Fits l l' before after k b e fits
Step-Fits fits (ends {l} {l'} {do_commit = c} before after k e) =
    ended-Fits l l' before after k c
      (OnOk-ok (λ (p : Log × Bool). Ends l p.0 p.1) (end_op-Ends l) e) fits
Step-Fits fits (commits {l} {ops} s e) = commits-Fits l s ops fits

pub Reach-Fits : {u v : System} → Fits u → Reach u v → Fits v
Reach-Fits fits here = fits
Reach-Fits fits (next reach step) = Step-Fits (Reach-Fits fits reach) step

-- In every state that such sequences reach from a log that fits, log_write by an operation with
-- budget left does not panic, and logs the block and no other one.
pub log_write-never_panics :
    {u : System} (l : Log) (before after : List ℕ) (k b : ℕ)
    → Fits u
    → Reach u (record { log = l; ops = before ++ suc k ∷ after })
    → (l' : Log) × (log_write b l ≡ ok l') × Logs b l l'
log_write-never_panics l before after k b fits reach =
    log_write_lem b l (Fits-HasRoom l before after k (Reach-Fits fits reach))
