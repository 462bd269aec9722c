-- ===== src/Log/TooBig.antt =====
-- log.c: the log of a disk that mkfs made. It has LOGSIZE blocks, of which one is the header, and
-- `begin_op` reserves as if all of them could hold entries.
use schoolstuff.Base.{
  ℕ, ◌+◌, ◌-◌, ◌*◌, ◌≤◌, ◌<◌, ◌≡◌, ◌≢◌, refl, true, false, ◌||◌, some, List, [], ◌∷◌, length, All,
  arith, ltb, leb, ◌∙◌, inl, inr,
}
use schoolstuff.Base.Outcome.{Outcome, ok, panic, ◌>>=◌}
use schoolstuff.Log.{Log, log_size, max_op_blocks, begin_op, log_write}
use schoolstuff.Log.Absorb.{Names, log_write_lem}

unfoldable pub log_writes : List ℕ → Log → Outcome Log
log_writes [] l = ok l
log_writes (b ∷ bs) l = log_write b l >>= log_writes bs

abbrev pub AllApart : List ℕ → Type 0
AllApart [] = Unit
AllApart (b ∷ bs) = All (λ c. c ≢ b) bs × AllApart bs

All-map2 :
    {P Q R : ℕ → Type 0} (f : (c : ℕ) → P c → Q c → R c) (bs : List ℕ)
    → All P bs
    → All Q bs
    → All R bs
All-map2 f [] p q = tt
All-map2 f (b ∷ bs) (p, ps) (q, qs) = (f b p q, All-map2 f bs ps qs)

-- Blocks that are not in the log and differ from each other take an entry each.
log_writes-n :
    (bs : List ℕ) (l : Log)
    → AllApart bs
    → All (λ c. Names l c → ⊥) bs
    → l.n + length bs < log_size
    → l.size ≡ log_size
    → 1 ≤ l.outstanding
    → (l' : Log) × (log_writes bs l ≡ ok l')
      × (l'.n ≡ l.n + length bs)
      × (l'.size ≡ log_size)
      × (l'.outstanding ≡ l.outstanding)
unfolding log_writes
log_writes-n [] l apart fresh small size open_op = (l, refl, omega arith, size, refl)
log_writes-n (b ∷ bs) l (apart, aparts) (fresh, freshes) small size open_op =
    let (l1, e, logs) = log_write_lem b l (omega arith, omega arith, open_op) in
    let (opened, same_size, _) = logs.rest in
    let grown = logs.takes fresh in
    let freshes1 : All (λ c. Names l1 c → ⊥) bs =
      All-map2 (λ c ne old named. elim (logs.adds c named) [ inl q ↦ ne q | inr k ↦ old k ]) bs
        apart freshes in
    let (l2, e2, n2, size2, opened2) =
      log_writes-n bs l1 aparts freshes1 (omega (arith, grown)) (same_size ∙ size)
        (omega (arith, opened)) in
    (l2, rw e e2, omega (arith, n2, grown), size2, opened2 ∙ opened)

log_write-panic : (b : ℕ) (l : Log) → l.size - 1 ≤ l.n → log_write b l ≡ panic
unfolding log_write
log_write-panic b l full =
    let test : (leb log_size l.n || leb (l.size - 1) l.n) ≡ true = ground arith in rw test

abbrev joined : Log → Log
joined l = record l { outstanding = l.outstanding + 1 }

begin_op-joined :
    (l : Log)
    → l.committing ≡ false
    → l.n + (l.outstanding + 1) * max_op_blocks ≤ log_size
    → begin_op l ≡ some (joined l)
unfolding begin_op
begin_op-joined l free room =
    let test : ltb log_size (l.n + (l.outstanding + 1) * max_op_blocks) ≡ false = ground arith in
    rw (free, test)

All-of : {P : ℕ → Type 0} → ((c : ℕ) → P c) → (bs : List ℕ) → All P bs
All-of f [] = tt
All-of f (b ∷ bs) = (f b, All-of f bs)

-- If the log has LOGSIZE blocks on the disk, as mkfs makes it, and is idle and empty, begin_op lets
-- three operations in, which may write 30 blocks; they can log any 29 different ones, and then
-- log_write of a block panics.
pub log_write-too_big :
    (l : Log) (bs : List ℕ) (b : ℕ)
    → l.size ≡ log_size
    → l.n ≡ 0
    → l.outstanding ≡ 0
    → l.committing ≡ false
    → AllApart bs
    → length bs ≡ 29
    → (l1 : Log) × (l2 : Log) × (l3 : Log) × (l4 : Log) × (begin_op l ≡ some l1)
      × (begin_op l1 ≡ some l2)
      × (begin_op l2 ≡ some l3)
      × (log_writes bs l3 ≡ ok l4)
      × (log_write b l4 ≡ panic)
log_write-too_big l bs b size empty idle free apart many =
    let l3 = joined (joined (joined l)) in
    let nothing : (c : ℕ) → Names l3 c → ⊥ = λ c (j, h, e). absurd (omega (arith, empty)) in
    let (l4, e, n4, size4, _) =
      log_writes-n bs l3 apart (All-of nothing bs) (omega (arith, empty, many)) size
        (omega (arith, idle)) in
    (
      joined l,
      joined (joined l),
      l3,
      l4,
      begin_op-joined l free (omega (arith, empty, idle)),
      begin_op-joined (joined l) free (omega (arith, empty, idle)),
      begin_op-joined (joined (joined l)) free (omega (arith, empty, idle)),
      e,
      log_write-panic b l4 (omega (arith, size4, n4, empty, many)),
    )
