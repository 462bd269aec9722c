-- ===== src/Log/Crash.antt =====
-- log.c: a commit is atomic. Wherever the power fails, recovery finds the old blocks or the new.
use native.Mathlib.Decide.{ℕ_discrete, dec_le}
use schoolstuff.Base.{
  ℕ, ◌+◌, ◌-◌, ◌≤◌, ◌<◌, ◌≡◌, ◌≢◌, refl, true, false, none, arith, ltb, ◌⊎◌, inl, inr, Option-cases,
  ne→==, min, ◌∙◌, sym, ap, le→leb,
}
use std.Path.{fun_ext}
use schoolstuff.Log.{
  Block, Store, Log, header, emptied, install_trans, write_head, write_log, commit,
}
use schoolstuff.Log.Loops.{
  IsData, last_slot, last_slot-some, copy_or, installed, logged, install_from-disk,
  install_from-power, write_log_from-disk, write_log_from-mem, write_log_from-power,
}
use schoolstuff.Log.Recovery.{
  Recovers, last_slot-prefix, last_slot-ext, installed-log, logged-other, logged-slot,
  write_head-lost, write_head-other, write_head-header, write_head-mem, write_head-power,
}

-- A transaction that can be committed: the log has room, its entries name data blocks, the header
-- on the disk is empty, and a data block that no entry names is in memory as on the disk.
pub record Ready (l : Log) (s : Store) : Type 0 where
  pub small : l.n < l.size
  pub home : (j : ℕ) → j < l.n → IsData l (l.block j)
  pub clean : s.disk l.start 0 ≡ 0
  pub cached : (b : ℕ) → IsData l b → last_slot l.n 0 l.block b ≡ none → s.mem b ≡ s.disk b

module _ (l : Log) (s : Store) (ready : Ready l s) where
  open ready use {small, home, clean, cached}

  abbrev home0 : (j : ℕ) → 0 ≤ j → j < 0 + l.n → IsData l (l.block j)
  home0 j h1 h2 = home j (omega arith)

  data_ne_start : (b : ℕ) → IsData l b → b ≢ l.start
  data_ne_start b hb = omega (arith, small)

  outside : (b : ℕ) → IsData l b → (b ≤ l.start) ⊎ (l.start + l.size ≤ b)
  outside b (inl h) = inl (omega arith)
  outside b (inr h) = inr h

  -- The store after each of the four phases of `commit`.
  s1 : Store
  s1 = write_log l s

  s2 : Store
  s2 = write_head l s1

  s3 : Store
  s3 = install_trans l s2

  s4 : Store
  s4 = write_head (emptied l) s3

  s1-disk : (b : ℕ) → s1.disk b ≡ logged (min l.n s.power) 0 l s.mem s.disk b
  unfolding s1 write_log
  s1-disk b = write_log_from-disk l l.n 0 s b home0 (omega (arith, small))

  s1-mem : (b : ℕ) → s1.mem b ≡ logged l.n 0 l s.mem s.mem b
  unfolding s1 write_log
  s1-mem b = write_log_from-mem l l.n 0 s b home0 (omega (arith, small))

  s1-power : s1.power ≡ s.power - l.n
  unfolding s1 write_log
  s1-power = write_log_from-power l l.n 0 s

  s2-power : s2.power ≡ s.power - l.n - 1
  unfolding s2
  s2-power = omega (arith, s1-power, write_head-power l s1)

  s3-disk : (b : ℕ) → s3.disk b ≡ installed (min l.n s2.power) 0 l s2.mem s2.disk b
  unfolding s3 install_trans
  s3-disk b = install_from-disk l l.n 0 s2 b home0 (omega (arith, small))

  s3-power : s3.power ≡ s.power - l.n - 1 - l.n
  unfolding s3 install_trans
  s3-power = omega (arith, s2-power, install_from-power l l.n 0 s2)

  -- The phases before the installation leave the data blocks alone.
  s2-disk_data : (b : ℕ) → IsData l b → s2.disk b ≡ s.disk b
  unfolding s2
  s2-disk_data b hb =
      write_head-other l s1 b (data_ne_start b hb)
      ∙ s1-disk b
      ∙ logged-other l (min l.n s.power) s.mem s.disk b (omega (arith, small)) (outside b hb)

  s2-mem_slot : (j : ℕ) → j < l.n → s2.mem (l.start + j + 1) ≡ s.mem (l.block j)
  unfolding s2
  s2-mem_slot j h =
      write_head-mem l s1 (l.start + j + 1) (omega arith)
      ∙ s1-mem (l.start + j + 1)
      ∙ logged-slot l l.n j s.mem s.mem h

  s2-disk_slot : (j : ℕ) → j < l.n → l.n ≤ s.power → s2.disk (l.start + j + 1) ≡ s.mem (l.block j)
  unfolding s2
  s2-disk_slot j h full =
      write_head-other l s1 (l.start + j + 1) (omega arith)
      ∙ s1-disk (l.start + j + 1)
      ∙ logged-slot l (min l.n s.power) j s.mem s.disk (omega arith)

  s3-log : (b : ℕ) → l.start ≤ b → b < l.start + l.size → s3.disk b ≡ s2.disk b
  s3-log b lo hi =
      s3-disk b
      ∙ installed-log l (min l.n s2.power) s2.mem s2.disk b (λ j h. home j (omega arith)) lo hi

  -- The data blocks with all the copies home are those in memory.
  new_content :
      (cp : ℕ → Block) (h : Block) (b : ℕ)
      → IsData l b
      → ((j : ℕ) → j < l.n → cp j ≡ s.mem (l.block j))
      → (last_slot l.n 0 l.block b ≡ none → h ≡ s.disk b)
      → copy_or cp h (last_slot l.n 0 l.block b) ≡ s.mem b
  new_content cp h b hb same rest = elim (Option-cases (last_slot l.n 0 l.block b)) [
    | inl e ↦ rw e (rest e ∙ sym (cached b hb e))
    | inr (j, e) ↦
        let (_, hi, named) = last_slot-some l.n 0 l.block b j e in
        rw e (same j (omega arith) ∙ ap s.mem named)
  ]

  header-block : (buf : Block) (j : ℕ) → j < l.n → header l buf (j + 1) ≡ l.block j
  header-block buf j h =
      let i : j + 1 - 1 ≡ j = omega arith in
      rw (ne→== (j + 1) 0 (omega arith), le→leb (j + 1) l.n (omega arith), i)

  -- Without power for the header, the disk is the one after `write_log`.
  lost : s.power ≤ l.n → (b : ℕ) → s4.disk b ≡ s1.disk b
  unfolding s4 s2 last_slot
  lost h b =
      let none_home : min l.n s2.power ≡ 0 = omega (arith, s2-power) in
      write_head-lost (emptied l) s3 (omega (arith, s3-power)) b
      ∙ s3-disk b
      ∙ ap (λ c. installed c 0 l s2.mem s2.disk b) none_home
      ∙ write_head-lost l s1 (omega (arith, s1-power)) b

  s1-other : (b : ℕ) → (b ≤ l.start) ⊎ (l.start + l.size ≤ b) → s1.disk b ≡ s.disk b
  s1-other b out =
      s1-disk b ∙ logged-other l (min l.n s.power) s.mem s.disk b (omega (arith, small)) out

  -- Power for the log entries at most: the old blocks.
  committed_old : s.power ≤ l.n → Recovers l s4.disk s.disk
  unfolding last_slot
  committed_old h =
      let empty : s4.disk l.start 0 ≡ 0 =
        ap (λ (k : Block). k 0) (lost h l.start ∙ s1-other l.start (inl (omega arith))) ∙ clean in
      record {
        small = rw empty (omega (arith, small));
        home = λ j hj. absurd (omega (arith, empty));
        content = λ b hb. rw empty (lost h b ∙ s1-other b (outside b hb));
      }

  s3-header : l.n < s.power → s3.disk l.start ≡ header l (s1.mem l.start)
  unfolding s2
  s3-header h =
      s3-log l.start (omega arith) (omega (arith, small))
      ∙ write_head-header l s1 (omega (arith, s1-power))

  s3-slot : (j : ℕ) → j < l.n → l.n < s.power → s3.disk (l.start + j + 1) ≡ s.mem (l.block j)
  s3-slot j hj h =
      s3-log (l.start + j + 1) (omega arith) (omega (arith, small))
      ∙ s2-disk_slot j hj (omega arith)

  s3-rest : (b : ℕ) → IsData l b → last_slot l.n 0 l.block b ≡ none → s3.disk b ≡ s.disk b
  s3-rest b hb e =
      let unnamed = last_slot-prefix (min l.n s2.power) l.n l.block b (omega arith) e in
      s3-disk b ∙ rw unnamed (s2-disk_data b hb)

  -- With the header on the disk: the new blocks, as long as it stands.
  committed_new : l.n < s.power → Recovers l s3.disk s.mem
  committed_new h =
      let head = s3-header h in
      let entries : (j : ℕ) → j < l.n → s3.disk l.start (j + 1) ≡ l.block j =
        λ j hj. ap (λ (k : Block). k (j + 1)) head ∙ header-block (s1.mem l.start) j hj in
      let count : s3.disk l.start 0 ≡ l.n = ap (λ (k : Block). k 0) head in
      record {
        small = rw count small;
        home = λ j hj. let hj' : j < l.n = omega (arith, count) in rw (entries j hj') (home j hj');
        content = λ b hb.
            rw
              (
                count,
                last_slot-ext l.n 0 (λ j. s3.disk l.start (j + 1)) l.block b
                    (λ j h1 h2. entries j (omega arith)),
              )
              (new_content (λ j. s3.disk (l.start + j + 1)) (s3.disk b) b hb
                (λ j hj. s3-slot j hj h) (s3-rest b hb));
      }

  -- All the copies are home before the header is cleared.
  s3-done : l.n + l.n < s.power → (b : ℕ) → IsData l b → s3.disk b ≡ s.mem b
  s3-done h b hb =
      let all : min l.n s2.power ≡ l.n = omega (arith, s2-power) in
      s3-disk b
      ∙ ap (λ c. installed c 0 l s2.mem s2.disk b) all
      ∙ new_content (λ j. s2.mem (l.start + j + 1)) (s2.disk b) b hb s2-mem_slot
          (λ e. s2-disk_data b hb)

  committed_done :
      l.n + l.n + 1 < s.power
      → (s4.disk l.start 0 ≡ 0) × ((b : ℕ) → IsData l b → s4.disk b ≡ s.mem b)
  unfolding s4
  committed_done h = (
    ap (λ (k : Block). k 0) (write_head-header (emptied l) s3 (omega (arith, s3-power))),
    λ b hb. write_head-other (emptied l) s3 b (data_ne_start b hb) ∙ s3-done (omega arith) b hb,
  )

-- With an empty header, the data blocks are what the disk recovers to.
empty-Recovers :
    (l : Log) (d f : ℕ → Block)
    → 0 < l.size
    → d l.start 0 ≡ 0
    → ((b : ℕ) → IsData l b → d b ≡ f b)
    → Recovers l d f
unfolding last_slot
empty-Recovers l d f small empty same = record {
  small = rw empty small;
  home = λ j hj. absurd (omega (arith, empty));
  content = λ b hb. rw empty (same b hb);
}

-- A disk that recovers recovers under every log at the same place.
moved-Recovers :
    (l : Log) (d d' f : ℕ → Block) → ((b : ℕ) → d b ≡ d' b) → Recovers l d' f → Recovers l d f
moved-Recovers l d d' f same rec = let q : d ≡ d' = fun_ext same in rw q rec

-- The disk that a commit leaves, by the number of its writes that reach it.
pub commit_crash :
    (l : Log) (s : Store)
    → Ready l s
    → let d' = (commit l s).1.disk in
      (s.power ≤ l.n → Recovers l d' s.disk)
      × (l.n < s.power → Recovers l d' s.mem)
      × (l.n + l.n + 1 < s.power → (d' l.start 0 ≡ 0) × ((b : ℕ) → IsData l b → d' b ≡ s.mem b))
unfolding commit s4 s3 s2 s1 last_slot
commit_crash l s ready = elim (ℕ_discrete l.n 0) [
  | yes e ↦
      let idle : ltb 0 l.n ≡ false = ground arith in
      let same : (b : ℕ) → IsData l b → s.disk b ≡ s.mem b =
        λ b hb. sym (ready.cached b hb (rw e refl)) in
      rw idle (
        λ h. empty-Recovers l s.disk s.disk (omega (arith, ready.small)) ready.clean (λ b hb. refl),
        λ h. empty-Recovers l s.disk s.mem (omega (arith, ready.small)) ready.clean same,
        λ h. (ready.clean, same),
      )
  | no ne ↦
      let busy : ltb 0 l.n ≡ true = ground arith in
      rw busy (
        committed_old l s ready,
        λ h. elim (dec_le s.power (l.n + l.n + 1)) [
          | yes cut ↦
              moved-Recovers l (s4 l s ready).disk (s3 l s ready).disk s.mem
                (write_head-lost (emptied l) (s3 l s ready)
                  (omega (arith, s3-power l s ready, cut)))
                (committed_new l s ready h)
          | no enough ↦
              let (empty, same) = committed_done l s ready (omega arith) in
              empty-Recovers l (s4 l s ready).disk s.mem (omega (arith, ready.small)) empty same
        ],
        committed_done l s ready,
      )
]
