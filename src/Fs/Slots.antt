-- ===== src/Fs/Slots.antt =====
-- fs.c: the blocks that an inode refers to. Slots 0 to 139 are those of its contents, by their order
-- in the file, and slot 140 is the indirect block.
use native.Mathlib.Decide.{ℕ_discrete}
use schoolstuff.Base.{
  ℕ, ◌+◌, ◌-◌, ◌*◌, ◌/◌, ◌%◌, ◌^◌, ◌≤◌, ◌<◌, ◌≡◌, ◌≢◌, ◌⊎◌, refl, true, false, arith, ltb, ◌==◌,
  if◌then◌else◌, inl, inr, ne→==, ==_refl, ◌∙◌, sym, ap, lt→ltb,
}
use schoolstuff.Fs.{
  block_size, max_file, n_direct, Block, Superblock, Volume, word_at, put_word, bitmap_block,
}
use schoolstuff.Fs.Blocks.{in_use, free_below, free_below-less}
use schoolstuff.Fs.Inode.{Inode, inode_block}

-- A word that is stored is the word that is loaded, and the others stay.
pub word_at-put_word_self : (o w : ℕ) (d : Block) → w < 2 ^ 32 → word_at (put_word o w d) o ≡ w
word_at-put_word_self o w d h =
    rw
      (
        ne→== (o + 1) o (omega arith),
        ne→== (o + 2) o (omega arith),
        ne→== (o + 3) o (omega arith),
        ==_refl o,
        ne→== (o + 2) (o + 1) (omega arith),
        ne→== (o + 3) (o + 1) (omega arith),
        ==_refl (o + 1),
        ne→== (o + 3) (o + 2) (omega arith),
        ==_refl (o + 2),
        ==_refl (o + 3),
      )
      (omega arith)

pub put_word-other : (o w : ℕ) (d : Block) (p : ℕ) → (p < o) ⊎ (o + 4 ≤ p) → put_word o w d p ≡ d p
put_word-other o w d p h = rw (
  ne→== o p (omega arith),
  ne→== (o + 1) p (omega arith),
  ne→== (o + 2) p (omega arith),
  ne→== (o + 3) p (omega arith),
)

pub word_at-put_word_other :
    (o w : ℕ) (d : Block) (p : ℕ)
    → (p + 4 ≤ o) ⊎ (o + 4 ≤ p)
    → word_at (put_word o w d) p ≡ word_at d p
word_at-put_word_other o w d p h = rw (
  put_word-other o w d p (omega arith),
  put_word-other o w d (p + 1) (omega arith),
  put_word-other o w d (p + 2) (omega arith),
  put_word-other o w d (p + 3) (omega arith),
)

abbrev pub n_slots : ℕ
n_slots = max_file + 1

unfoldable pub slot : Inode → Volume → ℕ → ℕ
slot ip v k =
    if ltb k n_direct
    then ip.addrs k
    else if k == max_file
    then ip.addrs n_direct
    else if ip.addrs n_direct == 0
    then 0
    else word_at (v.blocks (ip.addrs n_direct)) (4 * (k - n_direct))

module _ (ip : Inode) (v : Volume) where
  pub slot-direct : (k : ℕ) → k < n_direct → slot ip v k ≡ ip.addrs k
  unfolding slot
  slot-direct k h = rw (lt→ltb k n_direct h)

  pub slot-last : slot ip v max_file ≡ ip.addrs n_direct
  unfolding slot
  slot-last = refl

  pub slot-indirect :
      (k : ℕ)
      → n_direct ≤ k
      → k < max_file
      → ip.addrs n_direct ≢ 0
      → slot ip v k ≡ word_at (v.blocks (ip.addrs n_direct)) (4 * (k - n_direct))
  unfolding slot
  slot-indirect k lo hi nz =
      let past : ltb k n_direct ≡ false = ground arith in
      rw (past, ne→== k max_file (omega arith), ne→== (ip.addrs n_direct) 0 nz)

  pub slot-none : (k : ℕ) → n_direct ≤ k → k < max_file → ip.addrs n_direct ≡ 0 → slot ip v k ≡ 0
  unfolding slot
  slot-none k lo hi z =
      let past : ltb k n_direct ≡ false = ground arith in
      let test : (ip.addrs n_direct == 0) ≡ true = ground arith in
      rw (past, ne→== k max_file (omega arith), test)

-- The blocks before `meta` hold the bitmap, the inodes and what comes before them.
pub record Layout (sb : Superblock) (meta : ℕ) : Type 0 where
  pub bitmap : (b : ℕ) → b < sb.size → bitmap_block sb b < meta
  pub inodes : (i : ℕ) → i < sb.ninodes → inode_block sb i < meta
  pub apart : (b i : ℕ) → b < sb.size → i < sb.ninodes → bitmap_block sb b ≢ inode_block sb i
  pub some_meta : 0 < meta
  pub fits : meta ≤ sb.size
  pub words : sb.size < 2 ^ 32

-- The blocks of an inode are in use, none of them is the inode's twice, and so are the blocks before
-- `meta`.
pub record Owns (meta : ℕ) (ip : Inode) (v : Volume) : Type 0 where
  pub low : (b : ℕ) → b < meta → in_use v b ≡ true
  pub good :
      (k : ℕ)
      → k < n_slots
      → (slot ip v k ≡ 0)
        ⊎ ((meta ≤ slot ip v k) × (slot ip v k < v.sb.size) × (in_use v (slot ip v k) ≡ true))
  pub inj :
      (j k : ℕ) → j < n_slots → k < n_slots → slot ip v j ≢ 0 → slot ip v j ≡ slot ip v k → j ≡ k

-- Byte `off` of the file: a slot with no block reads as zeroes.
unfoldable pub content : Inode → Volume → ℕ → ℕ
content ip v off =
    let s = slot ip v (off / block_size) in if s == 0 then 0 else v.blocks s (off % block_size)

-- Slot `k`, which was empty, gets the free block `b`, and nothing else of the file changes.
pub record Filled (meta : ℕ) (ip : Inode) (v : Volume) (ip' : Inode) (v' : Volume) (k b : ℕ)
    : Type 0 where
  pub sb : v'.sb ≡ v.sb
  pub range : (meta ≤ b) × (b < v.sb.size)
  pub was_free : in_use v b ≡ false
  pub empty : slot ip v k ≡ 0
  pub filled : slot ip' v' k ≡ b
  pub others : (j : ℕ) → j < n_slots → j ≢ k → slot ip' v' j ≡ slot ip v j
  pub zeroed : k ≢ max_file → (i : ℕ) → v'.blocks b i ≡ 0
  pub kept : (c : ℕ) → meta ≤ c → c ≢ b → c ≢ slot ip' v' max_file → v'.blocks c ≡ v.blocks c
  pub bits : (c : ℕ) → c < v.sb.size → in_use v' c ≡ (if b == c then true else in_use v c)

module _ (meta : ℕ) (ip : Inode) (v : Volume) (ip' : Inode) (v' : Volume) (k b : ℕ)
    (layout : Layout v.sb meta) (k_ok : k < n_slots) (owns : Owns meta ip v)
    (filled : Filled meta ip v ip' v' k b) where
  open filled use {range, was_free, empty, others, kept, bits}

  still_in_use : (c : ℕ) → c < v.sb.size → in_use v c ≡ true → in_use v' c ≡ true
  still_in_use c h e = elim (ℕ_discrete b c) [
    | yes q ↦ bits c h ∙ rw (q, ==_refl c)
    | no nq ↦ bits c h ∙ rw (ne→== b c nq) e
  ]

  same_size : v'.sb.size ≡ v.sb.size
  same_size = ap (λ (s : Superblock). s.size) filled.sb

  -- No slot held the free block.
  fresh : (j : ℕ) → j < n_slots → slot ip v j ≢ b
  fresh j h e = elim (owns.good j h) [
    | inl z ↦ absurd (omega (arith, range, layout.some_meta))
    | inr (lo, hi, used) ↦ let u : in_use v b ≡ true = rw e at used in cc (u, was_free)
  ]

  Filled-good :
      (j : ℕ)
      → j < n_slots
      → (slot ip' v' j ≡ 0)
        ⊎ ((meta ≤ slot ip' v' j)
            × (slot ip' v' j < v'.sb.size)
            × (in_use v' (slot ip' v' j) ≡ true))
  Filled-good j h = elim (ℕ_discrete j k) [
    | yes e ↦
        let at_b : slot ip' v' j ≡ b = ap (slot ip' v') e ∙ filled.filled in
        rw at_b (inr (range.0, omega (arith, same_size, range), bits b range.1 ∙ rw (==_refl b)))
    | no ne ↦ rw (others j h ne) (elim (owns.good j h) [
      | inl z ↦ inl z
      | inr (lo, hi, used) ↦ inr (lo, omega (arith, same_size), still_in_use (slot ip v j) hi used)
    ])
  ]

  Filled-inj :
      (i j : ℕ)
      → i < n_slots
      → j < n_slots
      → slot ip' v' i ≢ 0
      → slot ip' v' i ≡ slot ip' v' j
      → i ≡ j
  Filled-inj i j hi hj nz e = elim (ℕ_discrete i k) [
    | yes ei ↦ elim (ℕ_discrete j k) [
      | yes ej ↦ omega arith
      | no nj ↦
          absurd (fresh j hj (sym (others j hj nj) ∙ sym e ∙ ap (slot ip' v') ei ∙ filled.filled))
    ]
    | no ni ↦ elim (ℕ_discrete j k) [
      | yes ej ↦
          absurd (fresh i hi (sym (others i hi ni) ∙ e ∙ ap (slot ip' v') ej ∙ filled.filled))
      | no nj ↦
          owns.inj i j hi hj (rw (others i hi ni) at nz) (sym (others i hi ni) ∙ e ∙ others j hj nj)
    ]
  ]

  pub Filled-Owns : Owns meta ip' v'
  Filled-Owns = record {
    low = λ c h. still_in_use c (omega (arith, range)) (owns.low c h);
    good = Filled-good;
    inj = Filled-inj;
  }

  -- A block of the contents, other than the new one, stays as it is.
  Filled-block :
      (j : ℕ) → j < max_file → slot ip v j ≢ 0 → v'.blocks (slot ip v j) ≡ v.blocks (slot ip v j)
  Filled-block j h nz =
      let jk : j ≢ k = λ e. nz (ap (slot ip v) e ∙ empty) in
      let same = others j (omega arith) jk in
      let inside : meta ≤ slot ip v j = elim (owns.good j (omega arith)) [
        | inl z ↦ absurd (nz z)
        | inr (lo, _, _) ↦ lo
      ] in
      kept (slot ip v j) inside (fresh j (omega arith)) (λ e.
        absurd (
          omega (arith, Filled-inj j max_file (omega arith) (omega arith) (rw same nz) (same ∙ e))))

  pub Filled-content :
      (off : ℕ) → off < max_file * block_size → content ip' v' off ≡ content ip v off
  unfolding content
  Filled-content off h = elim (ℕ_discrete (off / block_size) k) [
    | yes e ↦
        let was : slot ip v (off / block_size) ≡ 0 = ap (slot ip v) e ∙ empty in
        let now : slot ip' v' (off / block_size) ≡ b = ap (slot ip' v') e ∙ filled.filled in
        let zero_byte = filled.zeroed (omega arith) (off % block_size) in
        rw (was, now, ne→== b 0 (omega (arith, range, layout.some_meta))) zero_byte
    | no ne ↦
        rw (others (off / block_size) (omega arith) ne)
          (elim (ℕ_discrete (slot ip v (off / block_size)) 0) [
            | yes z ↦ rw z
            | no nz ↦ rw (ne→== _ 0 nz) (
                ap (λ (d : Block). d (off % block_size))
                  (Filled-block (off / block_size) (omega arith) nz))
          ])
  ]

  pub Filled-free : free_below v.sb.size v ≡ free_below v.sb.size v' + 1
  Filled-free = free_below-less v.sb.size b v v' range.1 was_free bits
