-- ===== src/Log/Absorb.antt =====
-- log.c: what `log_write` does to the entries of the log.
use native.Mathlib.Decide.{ℕ_discrete}
use schoolstuff.Base.{
  ℕ, zero, suc, ◌+◌, ◌-◌, ◌≤◌, ◌<◌, ◌≡◌, ◌≢◌, refl, false, ◌||◌, arith, ltb, leb, ◌==◌,
  if◌then◌else◌, update, ◌⊎◌, inl, inr, Bool-cases, ne→==, ==_refl, ◌∙◌, sym,
}
use schoolstuff.Base.Outcome.{ok}
use schoolstuff.Log.{Log, log_size, absorb_from, log_write}

-- The search stops at the first of the entries from `i` on that names the block.
absorb_from_lem :
    (l : Log) (r i b : ℕ)
    → let k = absorb_from l r i b in
      (i ≤ k)
      × (k ≤ i + r)
      × (k < i + r → l.block k ≡ b)
      × ((j : ℕ) → i ≤ j → j < k → l.block j ≢ b)
unfolding absorb_from
absorb_from_lem l zero i b =
    (omega arith, omega arith, λ h. absurd (omega arith), λ j h1 h2. absurd (omega arith))
absorb_from_lem l (suc r) i b = elim (Bool-cases (l.block i == b)) [
  | inl e ↦ rw e (omega arith, omega arith, λ h. ground arith, λ j h1 h2. absurd (omega arith))
  | inr e ↦
      let (lo, hi, hit, before) = absorb_from_lem l r (i + 1) b in
      rw e (
        omega arith,
        omega arith,
        λ h. hit (omega arith),
        λ j h1 h2. elim (ℕ_discrete i j) [
          | yes q ↦ let other : l.block i ≢ b = ground arith in rw q at other
          | no q ↦ before j (omega arith) h2
        ],
      )
]

-- Block `b` is in the log.
abbrev pub Names : Log → ℕ → Type 0
Names l b = (j : ℕ) × (j < l.n) × (l.block j ≡ b)

-- No block is in the log twice.
abbrev pub Distinct : Log → Type 0
Distinct l = (i j : ℕ) → i < l.n → j < l.n → l.block i ≡ l.block j → i ≡ j

-- The tests of `log_write`.
abbrev pub HasRoom : Log → Type 0
HasRoom l = (l.n < log_size) × (l.n < l.size - 1) × (1 ≤ l.outstanding)

abbrev written : ℕ → ℕ → Log → Log
written b i l = record l { block = update l.block i b; n = if i == l.n then l.n + 1 else l.n }

log_write-written :
    (b : ℕ) (l : Log) → HasRoom l → log_write b l ≡ ok (written b (absorb_from l l.n 0 b) l)
unfolding log_write
log_write-written b l (small, fits, open_op) =
    let tests : (leb log_size l.n || leb (l.size - 1) l.n) ≡ false = ground arith in
    let inside : ltb l.outstanding 1 ≡ false = ground arith in rw (tests, inside)

-- How `log_write` changes the log that it is given.
pub record Logs (b : ℕ) (l l' : Log) : Type 0 where
  pub names : Names l' b
  pub keeps : (c : ℕ) → Names l c → Names l' c
  pub adds : (c : ℕ) → Names l' c → (c ≡ b) ⊎ Names l c
  pub grows : (l.n ≤ l'.n) × (l'.n ≤ l.n + 1)
  pub absorbs : Names l b → l'.n ≡ l.n
  pub takes : (Names l b → ⊥) → l'.n ≡ l.n + 1
  pub distinct : Distinct l → Distinct l'
  pub rest : (l'.outstanding ≡ l.outstanding) × (l'.size ≡ l.size) × (l'.committing ≡ l.committing)

module _ (b i : ℕ) (l : Log) (le : i ≤ l.n) (hit : i < l.n → l.block i ≡ b) where
  written-block : (j : ℕ) → j < l.n → (written b i l).block j ≡ l.block j
  written-block j h = elim (ℕ_discrete i j) [
    | yes q ↦ rw (q, ==_refl j) (rw q at (sym (hit (omega arith))))
    | no q ↦ rw (ne→== i j q)
  ]

  written-Names : Names (written b i l) b
  written-Names = (i, ground arith, rw (==_refl i))

  written-n : (l.n ≤ (written b i l).n) × ((written b i l).n ≤ l.n + 1)
  written-n = (ground arith, ground arith)

  written-adds : (c : ℕ) → Names (written b i l) c → (c ≡ b) ⊎ Names l c
  written-adds c (j, h, e) = elim (ℕ_discrete i j) [
    | yes q ↦ inl (sym (rw (q, ==_refl j) at e))
    | no q ↦ inr (j, ground arith, rw (ne→== i j q) at e)
  ]

  -- The new entry is none of the others.
  written-apart :
      ((j : ℕ) → j < i → l.block j ≢ b)
      → Distinct l
      → (q : ℕ) → q < (written b i l).n
      → l.block q ≡ b
      → i ≢ q
      → ⊥
  written-apart before old q hq e ne = elim (ℕ_discrete i l.n) [
    | yes new ↦ before q (ground arith) e
    | no found ↦ ne (old i q (ground arith) (ground arith) (hit (omega arith) ∙ sym e))
  ]

  written-Distinct : ((j : ℕ) → j < i → l.block j ≢ b) → Distinct l → Distinct (written b i l)
  written-Distinct before old p q hp hq e = elim (ℕ_discrete i p) [
    | yes ip ↦ elim (ℕ_discrete i q) [
      | yes iq ↦ omega arith
      | no iq ↦
          let named : l.block q ≡ b = ground arith in
          absurd (written-apart before old q hq named iq)
    ]
    | no ip ↦ elim (ℕ_discrete i q) [
      | yes iq ↦
          let named : l.block p ≡ b = ground arith in
          absurd (written-apart before old p hp named ip)
      | no iq ↦ old p q (ground arith) (ground arith) (rw (ne→== i p ip, ne→== i q iq) at e)
    ]
  ]

absorbed : (l : Log) (i : ℕ) → i ≢ l.n → (if i == l.n then l.n + 1 else l.n) ≡ l.n
absorbed l i ne = rw (ne→== i l.n ne)

took : (l : Log) (i : ℕ) → i ≡ l.n → (if i == l.n then l.n + 1 else l.n) ≡ l.n + 1
took l i e = rw (e, ==_refl l.n)

-- `log_write` when the log has room does not panic. It logs the block and no other one, keeps the
-- blocks that are there, takes a new entry only for a block that has none, at most one, and logs no
-- block twice.
pub log_write_lem :
    (b : ℕ) (l : Log) → HasRoom l → (l' : Log) × (log_write b l ≡ ok l') × Logs b l l'
log_write_lem b l room =
    let i = absorb_from l l.n 0 b in
    let (_, le, hit, before) = absorb_from_lem l l.n 0 b in
    let hit' : i < l.n → l.block i ≡ b = λ h. hit (omega arith) in
    let before' : (j : ℕ) → j < i → l.block j ≢ b = λ j h. before j (omega arith) h in
    (
      written b i l,
      log_write-written b l room,
      record {
        names = written-Names b i l (omega arith) hit';
        keeps = λ c (j, h, e). (j, ground arith, written-block b i l (omega arith) hit' j h ∙ e);
        adds = written-adds b i l (omega arith) hit';
        grows = written-n b i l (omega arith) hit';
        absorbs = λ (j, h, e). absorbed l i (λ q. before' j (omega arith) e);
        takes = λ fresh. took l i (elim (ℕ_discrete i l.n) [
          | yes q ↦ q
          | no q ↦ absurd (fresh (i, omega arith, hit' (omega arith)))
        ]);
        distinct = written-Distinct b i l (omega arith) hit' before';
        rest = (refl, refl, refl);
      },
    )
