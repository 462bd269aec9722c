-- ===== src/Log/Calls.antt =====
-- log.c: what `begin_op`, `end_op` and the commit after it do to the log in memory.
use schoolstuff.Base.{
  ◌+◌, ◌-◌, ◌*◌, ◌≤◌, ◌≡◌, refl, Bool, false, Option, none, some, arith, ltb, ◌==◌, sym, Bool-cases,
  inl, inr,
}
use schoolstuff.Base.Outcome.{OnOk}
use schoolstuff.Log.{Log, Store, log_size, max_op_blocks, begin_op, end_op, end_commit, commit}
use schoolstuff.Log.Absorb.{Distinct}

-- What `begin_op` leaves if it lets the caller in.
pub record Begun (l l' : Log) : Type 0 where
  pub free : l.committing ≡ false
  pub free' : l'.committing ≡ false
  pub room : l.n + (l.outstanding + 1) * max_op_blocks ≤ log_size
  pub joined : l'.outstanding ≡ l.outstanding + 1
  pub entries : (l'.n ≡ l.n) × (l'.block ≡ l.block) × (l'.size ≡ l.size)

abbrev pub OnSome : (Log → Type 0) → Option Log → Type 0
OnSome P none = Unit
OnSome P (some l) = P l

pub begin_op-Begun : (l : Log) → OnSome (Begun l) (begin_op l)
unfolding begin_op
begin_op-Begun l = elim (Bool-cases l.committing) [
  | inl busy ↦ rw busy tt
  | inr free ↦ elim (Bool-cases (ltb log_size (l.n + (l.outstanding + 1) * max_op_blocks))) [
    | inl full ↦ rw (free, full) tt
    | inr room ↦
        let fits : l.n + (l.outstanding + 1) * max_op_blocks ≤ log_size = ground arith in
        rw (free, room)
          (record {
            free = refl;
            free' = refl;
            room = fits;
            joined = refl;
            entries = (refl, refl, refl);
          })
  ]
]

-- What `end_op` leaves, and whether it asks for a commit.
pub record Ends (l l' : Log) (do_commit : Bool) : Type 0 where
  pub free : l.committing ≡ false
  pub left : l'.outstanding ≡ l.outstanding - 1
  pub last : l'.committing ≡ (l.outstanding - 1 == 0)
  pub entries : (l'.n ≡ l.n) × (l'.block ≡ l.block) × (l'.size ≡ l.size)

pub end_op-Ends : (l : Log) → OnOk (λ (p : Log × Bool). Ends l p.0 p.1) (end_op l)
unfolding end_op
end_op-Ends l = elim (Bool-cases l.committing) [
  | inl busy ↦ rw busy tt
  | inr free ↦ elim (Bool-cases (l.outstanding - 1 == 0)) [
    | inl last ↦
        rw (free, last)
          (record { free = refl; left = refl; last = sym last; entries = (refl, refl, refl) })
    | inr more ↦
        rw (free, more)
          (record { free = refl; left = refl; last = sym more; entries = (refl, refl, refl) })
  ]
]

pub end_commit_lem :
    (l : Log) (s : Store)
    → let l' = (end_commit l s).0 in
      (l'.committing ≡ false)
      × (l'.n ≡ 0)
      × (l'.block ≡ l.block)
      × (l'.size ≡ l.size)
      × (l'.outstanding ≡ l.outstanding)
unfolding end_commit commit
end_commit_lem l s = elim (Bool-cases (ltb 0 l.n)) [
  | inl h ↦ rw h (refl, refl, refl, refl, refl)
  | inr h ↦ rw h (refl, ground arith, refl, refl, refl)
]

pub Distinct-ext : (l l' : Log) → l'.n ≡ l.n → l'.block ≡ l.block → Distinct l → Distinct l'
Distinct-ext l l' same same_block old i j hi hj e =
    old i j (omega arith) (omega arith) (rw same_block at e)
