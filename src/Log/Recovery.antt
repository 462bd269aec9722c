-- ===== src/Log/Recovery.antt =====
-- log.c: which disks recover to which contents, and that recovery, however often it is cut short,
-- gets there.
use native.Mathlib.Decide.{dec_le}
use schoolstuff.Base.{
  ℕ, zero, suc, ◌+◌, ◌-◌, ◌≤◌, ◌<◌, ◌≡◌, ◌≢◌, refl, true, false, ◌&&◌, none, arith, ltb, leb, ◌==◌,
  ◌⊎◌, inl, inr, Bool-cases, Option-cases, ne→==, ==_refl, min, ◌∙◌, sym, ap, lt→ltb,
}
use schoolstuff.Log.{
  Block, Store, boot, bwrite, Log, header, emptied, install_trans, read_head, write_head,
  recover_from_log,
}
use schoolstuff.Log.Loops.{
  IsData, last_slot, last_slot-some, last_slot-none, copy_or, installed, logged, install_from-disk,
  install_from-power,
}

-- A disk that `recover_from_log` turns into the contents `f`: the header on it names data blocks,
-- as many as fit, and with the logged copies of those blocks put home the data blocks are `f`.
pub record Recovers (l : Log) (d f : ℕ → Block) : Type 0 where
  pub small : d l.start 0 < l.size
  pub home : (j : ℕ) → j < d l.start 0 → IsData l (d l.start (j + 1))
  pub content :
      (b : ℕ)
      → IsData l b
      → copy_or
          (λ j. d (l.start + j + 1))
          (d b)
          (last_slot (d l.start 0) 0 (λ j. d l.start (j + 1)) b)
        ≡ f b

pub last_slot-ext :
    (c tail : ℕ) (block block' : ℕ → ℕ) (b : ℕ)
    → ((j : ℕ) → tail ≤ j → j < tail + c → block j ≡ block' j)
    → last_slot c tail block b ≡ last_slot c tail block' b
unfolding last_slot
last_slot-ext zero tail block block' b h = refl
last_slot-ext (suc c) tail block block' b h = rw (
  last_slot-ext c (tail + 1) block block' b (λ j h1 h2. h j (omega arith) (omega arith)),
  h tail (omega arith) (omega arith),
)

-- Fewer entries name fewer blocks.
pub last_slot-prefix :
    (c n : ℕ) (block : ℕ → ℕ) (b : ℕ)
    → c ≤ n
    → last_slot n 0 block b ≡ none
    → last_slot c 0 block b ≡ none
last_slot-prefix c n block b h e = elim (Option-cases (last_slot c 0 block b)) [
  | inl e' ↦ e'
  | inr (j, e') ↦
      let (lo, hi, named) = last_slot-some c 0 block b j e' in
      absurd (last_slot-none n 0 block b e j (omega arith) (omega arith) named)
]

-- Only the copies in the named slots matter.
pub copy_or-ext :
    (cp cp' : ℕ → Block) {h h' : Block} (n : ℕ) (block : ℕ → ℕ) (b : ℕ)
    → ((j : ℕ) → j < n → cp j ≡ cp' j)
    → h ≡ h'
    → copy_or cp h (last_slot n 0 block b) ≡ copy_or cp' h' (last_slot n 0 block b)
copy_or-ext cp cp' n block b same home = elim (Option-cases (last_slot n 0 block b)) [
  | inl e ↦ rw e home
  | inr (j, e) ↦ let (_, hi, _) = last_slot-some n 0 block b j e in rw e (same j (omega arith))
]

module _ (l : Log) where
  -- The loops that copy home leave the log's own blocks alone.
  pub installed-log :
      (c : ℕ) (m h : ℕ → Block) (b : ℕ)
      → ((j : ℕ) → j < c → IsData l (l.block j))
      → l.start ≤ b
      → b < l.start + l.size
      → installed c 0 l m h b ≡ h b
  installed-log c m h b data_blocks lo hi = elim (Option-cases (last_slot c 0 l.block b)) [
    | inl e ↦ rw e
    | inr (j, e) ↦
        let (_, small, named) = last_slot-some c 0 l.block b j e in
        let home = data_blocks j (omega arith) in absurd (omega arith)
  ]

  -- The loops that copy to the log leave the header and the data alone.
  pub logged-other :
      (c : ℕ) (cache old : ℕ → Block) (b : ℕ)
      → c < l.size
      → (b ≤ l.start) ⊎ (l.start + l.size ≤ b)
      → logged c 0 l cache old b ≡ old b
  logged-other c cache old b small apart =
      let out : (leb (l.start + 0 + 1) b && ltb b (l.start + 0 + 1 + c)) ≡ false = ground arith in
      rw out

  pub logged-slot :
      (c j : ℕ) (cache old : ℕ → Block)
      → j < c
      → logged c 0 l cache old (l.start + j + 1) ≡ cache (l.block j)
  logged-slot c j cache old h =
      let inside : (leb (l.start + 0 + 1) (l.start + j + 1)
            && ltb (l.start + j + 1) (l.start + 0 + 1 + c))
          ≡ true =
        ground arith in
      let slot : l.start + j + 1 - l.start - 1 ≡ j = omega arith in rw (inside, slot)

  -- The log with the header that `read_head` finds on the disk.
  abbrev pub found_log : (ℕ → Block) → ℕ → Log
  found_log d p = read_head l (boot d p)

-- `write_head`, with and without power.
module _ (l : Log) (s : Store) where
  pub write_head-lost : s.power ≡ 0 → (b : ℕ) → (write_head l s).disk b ≡ s.disk b
  unfolding write_head bwrite
  write_head-lost h b = rw h

  pub write_head-other : (b : ℕ) → b ≢ l.start → (write_head l s).disk b ≡ s.disk b
  unfolding write_head bwrite
  write_head-other b ne = elim (Bool-cases (s.power == 0)) [
    | inl e ↦ rw e
    | inr e ↦ rw (e, ne→== l.start b (λ q. ne (sym q)))
  ]

  pub write_head-header : 0 < s.power → (write_head l s).disk l.start ≡ header l (s.mem l.start)
  unfolding write_head bwrite
  write_head-header h = let on : (s.power == 0) ≡ false = ground arith in rw (on, ==_refl l.start)

  pub write_head-mem : (b : ℕ) → b ≢ l.start → (write_head l s).mem b ≡ s.mem b
  unfolding write_head bwrite
  write_head-mem b ne = rw (ne→== l.start b (λ q. ne (sym q)))

  pub write_head-power : (write_head l s).power ≡ s.power - 1
  unfolding write_head bwrite
  write_head-power = refl

module _ (l : Log) (d f : ℕ → Block) (p : ℕ) (rec : Recovers l d f) where
  abbrev count : ℕ
  count = d l.start 0

  abbrev log' : Log
  log' = found_log l d p

  found_block : (j : ℕ) → j < count → log'.block j ≡ d l.start (j + 1)
  unfolding read_head
  found_block j h = rw (lt→ltb j count h)

  found_home : (j : ℕ) → j < count → IsData l (log'.block j)
  found_home j h = rw (found_block j h) (rec.home j h)

  abbrev named : ℕ → ℕ
  named j = d l.start (j + 1)

  abbrev copies : ℕ → Block
  copies j = d (l.start + j + 1)

  found_slots : (c b : ℕ) → c ≤ count → last_slot c 0 log'.block b ≡ last_slot c 0 named b
  found_slots c b h = last_slot-ext c 0 log'.block named b (λ j h1 h2. found_block j (omega arith))

  -- A block after `c` of the copies of `install_trans` have reached the disk.
  partly : ℕ → ℕ → Block
  partly c b = installed c 0 log' d d b

  partly_lem : (c b : ℕ) → c ≤ count → partly c b ≡ copy_or copies (d b) (last_slot c 0 named b)
  unfolding partly read_head
  partly_lem c b h = ap (copy_or copies (d b)) (found_slots c b h)

  -- With the header still on the disk, such a disk recovers to the same contents.
  partly-content :
      (c b : ℕ)
      → c ≤ count
      → IsData l b
      → copy_or copies (partly c b) (last_slot count 0 named b) ≡ f b
  partly-content c b h hb = elim (Option-cases (last_slot count 0 named b)) [
    | inl e ↦
        rw (e, partly_lem c b h, last_slot-prefix c count named b h e) (rw e at (rec.content b hb))
    | inr (j, e) ↦ rw e (rw e at (rec.content b hb))
  ]

  partly-all : (b : ℕ) → IsData l b → partly count b ≡ f b
  partly-all b hb = partly_lem count b (omega arith) ∙ rec.content b hb

  partly-log : (c b : ℕ) → c ≤ count → l.start ≤ b → b < l.start + l.size → partly c b ≡ d b
  unfolding partly read_head
  partly-log c b h lo hi = installed-log log' c d d b (λ j hj. found_home j (omega arith)) lo hi

  -- What `install_trans` leaves on the disk, in memory, and of the power.
  installed_store : Store
  installed_store = install_trans log' (boot d p)

  installed_store-disk : (b : ℕ) → installed_store.disk b ≡ partly (min count p) b
  unfolding installed_store install_trans partly read_head
  installed_store-disk b =
      install_from-disk log' count 0 (boot d p) b (λ j h1 h2. found_home j (omega arith))
        (omega (arith, rec.small))

  installed_store-power : installed_store.power ≡ p - count
  unfolding installed_store install_trans read_head
  installed_store-power = install_from-power log' count 0 (boot d p)

  recovered : Store
  recovered = (recover_from_log l (boot d p)).1

  -- Cut short before the header is cleared: the header and the copies are still there.
  recovered_early : p ≤ count → (b : ℕ) → recovered.disk b ≡ partly (min count p) b
  unfolding recovered recover_from_log installed_store
  recovered_early h b =
      write_head-lost (emptied log') installed_store (omega (arith, installed_store-power)) b
      ∙ installed_store-disk b

  -- Otherwise all the copies are home, and the header on the disk is empty.
  recovered_late : count < p → (b : ℕ) → b ≢ l.start → recovered.disk b ≡ partly count b
  unfolding recovered recover_from_log installed_store read_head
  recovered_late h b ne =
      let all : min count p ≡ count = omega arith in
      write_head-other (emptied log') installed_store b ne
      ∙ installed_store-disk b
      ∙ ap (λ c. partly c b) all

  recovered_header : count < p → recovered.disk l.start 0 ≡ 0
  unfolding recovered recover_from_log installed_store read_head
  recovered_header h =
      ap (λ (k : Block). k 0)
        (write_head-header (emptied log') installed_store (omega (arith, installed_store-power)))

  data_ne_start : (b : ℕ) → IsData l b → b ≢ l.start
  data_ne_start b hb = omega (arith, rec.small)

  -- A disk with its header and its copies as before.
  early_Recovers : p ≤ count → Recovers l recovered.disk f
  early_Recovers h =
      let head : recovered.disk l.start ≡ d l.start =
        recovered_early h l.start
        ∙ partly-log (min count p) l.start (omega arith) (omega arith) (omega (arith, rec.small)) in
      record {
        small = rw head rec.small;
        home = λ j hj. rw head (rec.home j (rw head at hj));
        content = λ b hb. rw head (
            copy_or-ext (λ j. recovered.disk (l.start + j + 1)) copies count named b
              (λ j hj.
                recovered_early h (l.start + j + 1)
                ∙ partly-log (min count p) (l.start + j + 1) (omega arith) (omega arith)
                    (omega (arith, rec.small)))
              (recovered_early h b)
            ∙ partly-content (min count p) b (omega arith) hb);
      }

  late_Recovers : count < p → Recovers l recovered.disk f
  unfolding last_slot
  late_Recovers h =
      let empty = recovered_header h in
      record {
        small = rw empty (omega (arith, rec.small));
        home = λ j hj. absurd (omega (arith, empty));
        content = λ b hb. rw empty (recovered_late h b (data_ne_start b hb) ∙ partly-all b hb);
      }

-- Recovery can be cut short after any number of block writes: the disk then still recovers to the
-- same contents. With one write more than the header names blocks, it is complete: the header on
-- the disk is empty and the data blocks are the contents.
pub recover_crash :
    (l : Log) (d f : ℕ → Block) (p : ℕ)
    → Recovers l d f
    → let d' = (recover_from_log l (boot d p)).1.disk in
      Recovers l d' f × (d l.start 0 < p → (d' l.start 0 ≡ 0) × ((b : ℕ) → IsData l b → d' b ≡ f b))
unfolding recovered
recover_crash l d f p rec = (
  elim (dec_le p (d l.start 0)) [
    | yes early ↦ early_Recovers l d f p rec early
    | no late ↦ late_Recovers l d f p rec (omega arith)
  ],
  λ late. (
    recovered_header l d f p rec late,
    λ b hb.
        recovered_late l d f p rec late b (data_ne_start l d f p rec b hb)
        ∙ partly-all l d f p rec b hb,
  ),
)
