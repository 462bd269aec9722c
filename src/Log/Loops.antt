-- ===== src/Log/Loops.antt =====
-- log.c: what the loops that copy blocks leave on the disk and in memory, when only so many of
-- their writes reach the disk.
use native.Mathlib.Decide.{ℕ_discrete}
use schoolstuff.Base.{
  ℕ, zero, suc, ◌+◌, ◌-◌, ◌≤◌, ◌<◌, ◌≡◌, ◌≢◌, refl, true, false, ◌&&◌, Option, none, some, arith,
  ltb, leb, ◌==◌, if◌then◌else◌, update, ◌⊎◌, inl, inr, Bool-cases, Option-cases, ne→==, ==_refl,
  min, ◌∙◌, sym, ap,
}
use schoolstuff.Log.{Block, Store, bread, bwrite, Log, install_from, write_log_from}

-- The log's own blocks, and the others.
abbrev pub IsData : Log → ℕ → Type 0
IsData l b = (b < l.start) ⊎ (l.start + l.size ≤ b)

abbrev later_or : Option ℕ → Option ℕ → Option ℕ
later_or earlier none = earlier
later_or earlier (some j) = some j

-- The last of `c` log entries from `tail` on that names block `b`.
unfoldable pub last_slot : ℕ → ℕ → (ℕ → ℕ) → ℕ → Option ℕ
last_slot zero tail block b = none
last_slot (suc c) tail block b =
    later_or (if block tail == b then some tail else none) (last_slot c (tail + 1) block b)

pub last_slot-some :
    (c tail : ℕ) (block : ℕ → ℕ) (b j : ℕ)
    → last_slot c tail block b ≡ some j
    → (tail ≤ j) × (j < tail + c) × (block j ≡ b)
unfolding last_slot
last_slot-some zero tail block b j e = absurd (ground arith)
last_slot-some (suc c) tail block b j e = elim (Option-cases (last_slot c (tail + 1) block b)) [
  | inl none_later ↦ ground arith
  | inr (m, later) ↦ let ih = last_slot-some c (tail + 1) block b m later in ground arith
]

pub last_slot-none :
    (c tail : ℕ) (block : ℕ → ℕ) (b : ℕ)
    → last_slot c tail block b ≡ none
    → (j : ℕ) → tail ≤ j
    → j < tail + c
    → block j ≢ b
unfolding last_slot
last_slot-none zero tail block b e j h1 h2 = absurd (omega arith)
last_slot-none (suc c) tail block b e j h1 h2 =
    elim (Option-cases (last_slot c (tail + 1) block b)) [
      | inl none_later ↦ elim (ℕ_discrete tail j) [
        | yes q ↦ λ x. cc (rw (none_later, ap block q ∙ x, ==_refl b) at e)
        | no q ↦ last_slot-none c (tail + 1) block b none_later j (omega arith) (omega arith)
      ]
      | inr (m, later) ↦ absurd (ground arith)
    ]

-- Block `b` once `c` log entries from `tail` on have been copied home.
abbrev pub copy_or : (ℕ → Block) → Block → Option ℕ → Block
copy_or copies home none = home
copy_or copies home (some j) = copies j

abbrev pub installed : ℕ → ℕ → Log → (ℕ → Block) → (ℕ → Block) → ℕ → Block
installed c tail l logged home b =
    copy_or (λ j. logged (l.start + j + 1)) (home b) (last_slot c tail l.block b)

module _ (l : Log) where
  -- One round of the loop, then the others.
  installed-suc :
      (c tail : ℕ) (logged home : ℕ → Block) (b : ℕ)
      → IsData l (l.block tail)
      → tail + suc c < l.size
      → let x = logged (l.start + tail + 1) in
        installed c (tail + 1) l (update logged (l.block tail) x) (update home (l.block tail) x) b
        ≡ installed (suc c) tail l logged home b
  unfolding last_slot
  installed-suc c tail logged home b data_block small =
      elim (Option-cases (last_slot c (tail + 1) l.block b)) [
        | inl none_later ↦
            rw none_later (elim (Bool-cases (l.block tail == b)) [ inl e ↦ rw e | inr e ↦ rw e ])
        | inr (j, later) ↦
            let (lo, hi, _) = last_slot-some c (tail + 1) l.block b j later in
            let apart : l.block tail ≢ l.start + j + 1 = ground arith in rw (later, ne→== _ _ apart)
      ]

  pub install_from-disk :
      (r tail : ℕ) (s : Store) (b : ℕ)
      → ((j : ℕ) → tail ≤ j → j < tail + r → IsData l (l.block j))
      → tail + r < l.size
      → (install_from l r tail s).disk b ≡ installed (min r s.power) tail l s.mem s.disk b
  unfolding install_from last_slot bwrite
  install_from-disk zero tail s b home small = let m : min 0 s.power ≡ 0 = omega arith in rw m refl
  install_from-disk (suc r) tail s b home small =
      install_from-disk r (tail + 1) (bwrite (l.block tail) (bread s (l.start + tail + 1)) s) b
        (λ j h1 h2. home j (omega arith) (omega arith)) (omega arith)
      ∙ elim (ℕ_discrete s.power 0) [
        | yes e ↦
            let m : min r 0 ≡ 0 = omega arith in
            let m' : min (suc r) 0 ≡ 0 = omega arith in rw (e, m, m')
        | no e ↦
            let m : min (suc r) s.power ≡ suc (min r (s.power - 1)) = omega arith in
            rw (ne→== _ 0 e, m)
              (installed-suc (min r (s.power - 1)) tail s.mem s.disk b
                (home tail (omega arith) (omega arith)) (omega arith))
      ]

  pub install_from-mem :
      (r tail : ℕ) (s : Store) (b : ℕ)
      → ((j : ℕ) → tail ≤ j → j < tail + r → IsData l (l.block j))
      → tail + r < l.size
      → (install_from l r tail s).mem b ≡ installed r tail l s.mem s.mem b
  unfolding install_from last_slot bwrite
  install_from-mem zero tail s b home small = refl
  install_from-mem (suc r) tail s b home small =
      install_from-mem r (tail + 1) (bwrite (l.block tail) (bread s (l.start + tail + 1)) s) b
        (λ j h1 h2. home j (omega arith) (omega arith)) (omega arith)
      ∙ installed-suc r tail s.mem s.mem b (home tail (omega arith) (omega arith)) small

  pub install_from-power : (r tail : ℕ) (s : Store) → (install_from l r tail s).power ≡ s.power - r
  unfolding install_from bwrite
  install_from-power zero tail s = omega arith
  install_from-power (suc r) tail s = omega (
    arith,
    install_from-power r (tail + 1) (bwrite (l.block tail) (bread s (l.start + tail + 1)) s),
  )

-- Block `b` once the blocks of `c` log entries from `tail` on have been copied to the log.
abbrev pub logged : ℕ → ℕ → Log → (ℕ → Block) → (ℕ → Block) → ℕ → Block
logged c tail l cache old b =
    if leb (l.start + tail + 1) b && ltb b (l.start + tail + 1 + c)
    then cache (l.block (b - l.start - 1))
    else old b

module _ (l : Log) where
  logged-suc :
      (c tail : ℕ) (cache old : ℕ → Block) (b : ℕ)
      → ((j : ℕ) → tail ≤ j → j < tail + suc c → IsData l (l.block j))
      → tail + suc c < l.size
      → let x = cache (l.block tail) in
        logged c
          (tail + 1)
          l
          (update cache (l.start + tail + 1) x)
          (update old (l.start + tail + 1) x)
          b
        ≡ logged (suc c) tail l cache old b
  logged-suc c tail cache old b home small = elim (ℕ_discrete (l.start + tail + 1) b) [
    | yes e ↦
        let out : (leb (l.start + (tail + 1) + 1) b && ltb b (l.start + (tail + 1) + 1 + c))
            ≡ false =
          ground arith in
        let inside : (leb (l.start + tail + 1) b && ltb b (l.start + tail + 1 + suc c)) ≡ true =
          ground arith in
        let here : (l.start + tail + 1 == b) ≡ true = ground arith in
        let slot : tail ≡ b - l.start - 1 = omega arith in
        rw (out, inside, here) (ap (λ k. cache (l.block k)) slot)
    | no ne ↦
        elim (Bool-cases
          (leb (l.start + (tail + 1) + 1) b && ltb b (l.start + (tail + 1) + 1 + c))) [
            | inl later ↦
                let inside : (leb (l.start + tail + 1) b && ltb b (l.start + tail + 1 + suc c))
                    ≡ true =
                  ground arith in
                let slot = home (b - l.start - 1) (ground arith) (ground arith) in
                let apart : l.start + tail + 1 ≢ l.block (b - l.start - 1) = omega arith in
                rw (later, inside, ne→== _ _ apart)
            | inr out ↦
                let out' : (leb (l.start + tail + 1) b && ltb b (l.start + tail + 1 + suc c))
                    ≡ false =
                  ground arith in
                rw (out, out', ne→== _ _ ne)
          ]
  ]

  logged-zero : (tail : ℕ) (cache old : ℕ → Block) (b : ℕ) → logged 0 tail l cache old b ≡ old b
  logged-zero tail cache old b =
      let out : (leb (l.start + tail + 1) b && ltb b (l.start + tail + 1 + 0)) ≡ false =
        ground arith in
      rw out

  pub write_log_from-disk :
      (r tail : ℕ) (s : Store) (b : ℕ)
      → ((j : ℕ) → tail ≤ j → j < tail + r → IsData l (l.block j))
      → tail + r < l.size
      → (write_log_from l r tail s).disk b ≡ logged (min r s.power) tail l s.mem s.disk b
  unfolding write_log_from bwrite
  write_log_from-disk zero tail s b home small =
      let m : min 0 s.power ≡ 0 = omega arith in rw m (sym (logged-zero tail s.mem s.disk b))
  write_log_from-disk (suc r) tail s b home small =
      write_log_from-disk r (tail + 1) (bwrite (l.start + tail + 1) (bread s (l.block tail)) s) b
        (λ j h1 h2. home j (omega arith) (omega arith)) (omega arith)
      ∙ elim (ℕ_discrete s.power 0) [
        | yes e ↦
            let m : min r 0 ≡ 0 = omega arith in
            let m' : min (suc r) 0 ≡ 0 = omega arith in
            rw (e, m, m')
              (logged-zero (tail + 1) (update s.mem (l.start + tail + 1) (s.mem (l.block tail)))
                  s.disk b
                ∙ sym (logged-zero tail s.mem s.disk b))
        | no e ↦
            let m : min (suc r) s.power ≡ suc (min r (s.power - 1)) = omega arith in
            rw (ne→== _ 0 e, m)
              (logged-suc (min r (s.power - 1)) tail s.mem s.disk b
                (λ j h1 h2. home j (omega arith) (omega arith)) (omega arith))
      ]

  pub write_log_from-mem :
      (r tail : ℕ) (s : Store) (b : ℕ)
      → ((j : ℕ) → tail ≤ j → j < tail + r → IsData l (l.block j))
      → tail + r < l.size
      → (write_log_from l r tail s).mem b ≡ logged r tail l s.mem s.mem b
  unfolding write_log_from bwrite
  write_log_from-mem zero tail s b home small = sym (logged-zero tail s.mem s.mem b)
  write_log_from-mem (suc r) tail s b home small =
      write_log_from-mem r (tail + 1) (bwrite (l.start + tail + 1) (bread s (l.block tail)) s) b
        (λ j h1 h2. home j (omega arith) (omega arith)) (omega arith)
      ∙ logged-suc r tail s.mem s.mem b home small

  pub write_log_from-power :
      (r tail : ℕ) (s : Store) → (write_log_from l r tail s).power ≡ s.power - r
  unfolding write_log_from bwrite
  write_log_from-power zero tail s = omega arith
  write_log_from-power (suc r) tail s = omega (
    arith,
    write_log_from-power r (tail + 1) (bwrite (l.start + tail + 1) (bread s (l.block tail)) s),
  )
