-- ===== src/Fs/Blocks.antt =====
-- fs.c: the bitmap of the blocks in use, and what `balloc` and `bfree` do to it.
use native.Mathlib.Decide.{ℕ_discrete, dec_lt}
use schoolstuff.Base.{
  ℕ, zero, suc, ◌+◌, ◌-◌, ◌/◌, ◌%◌, ◌≤◌, ◌<◌, ◌≡◌, ◌≢◌, ◌⊎◌, refl, Bool, true, false, not, none,
  some, arith, ltb, ◌==◌, if◌then◌else◌, inl, inr, Bool-cases, ne→==, ==_refl, ◌∙◌, sym, ap, min,
  from_next,
}
use schoolstuff.Base.Outcome.{Outcome, ok, panic}
use schoolstuff.Fs.{
  bits_per_block, Block, Volume, log_block, bzero, is_free, mark, bitmap_block, find_bit,
  balloc_from, balloc,
}
use schoolstuff.Fs.Bits.{bit_set_self, bit_set_ne}

-- Bit `bi` of a bitmap block, and its change.
mark_self : (d : Block) (bi : ℕ) → is_free (mark bi d) bi ≡ false
mark_self d bi =
    let e = bit_set_self (d (bi / 8)) (bi % 8) (omega arith) in rw (==_refl (bi / 8), e)

mark_other : (d : Block) (bi bj : ℕ) → bi ≢ bj → is_free (mark bi d) bj ≡ is_free d bj
mark_other d bi bj ne = elim (ℕ_discrete (bi / 8) (bj / 8)) [
  | yes e ↦
      let other =
        bit_set_ne (d (bi / 8)) (bi % 8) (omega arith) (bj % 8) (omega arith) (omega arith) in
      rw⁻¹ e (rw (==_refl (bi / 8), other))
  | no e ↦ rw (ne→== _ _ e)
]

-- The first free bit, if there is one.
find_bit_lem :
    (n i : ℕ) (d : Block)
    → ((find_bit n i d ≡ none) × ((j : ℕ) → i ≤ j → j < i + n → is_free d j ≡ false))
      ⊎ ((k : ℕ) × (find_bit n i d ≡ some k)
          × (i ≤ k)
          × (k < i + n)
          × (is_free d k ≡ true)
          × ((j : ℕ) → i ≤ j → j < k → is_free d j ≡ false))
unfolding find_bit
find_bit_lem zero i d = inl (refl, λ j h1 h2. absurd (omega arith))
find_bit_lem (suc n) i d = elim (Bool-cases (is_free d i)) [
  | inl free ↦
      rw free (inr (i, refl, omega arith, omega arith, free, λ j h1 h2. absurd (omega arith)))
  | inr used ↦ rw used (elim (find_bit_lem n (i + 1) d) [
    | inl (e, all) ↦ inl (
      e,
      from_next (λ j. is_free d j ≡ false) i (i + suc n) used (λ j h1 h2. all j h1 (omega arith)),
    )
    | inr (k, e, lo, hi, free, all) ↦
        inr
          (k, e, omega arith, omega arith, free, from_next (λ j. is_free d j ≡ false) i k used all)
  ])
]

-- Block `b` is marked in the bitmap.
unfoldable pub in_use : Volume → ℕ → Bool
in_use v b = not (is_free (v.blocks (bitmap_block v.sb b)) (b % bits_per_block))

-- The volume with block `b` taken out of the free ones and zeroed.
abbrev pub taken : ℕ → Volume → Volume
taken b v =
    let bb = bitmap_block v.sb b in
    bzero b (log_block bb (mark (b % bits_per_block) (v.blocks bb)) v)

-- The blocks whose bits lie in one block of the bitmap.
module _ (v : Volume) (b : ℕ) (aligned : b % bits_per_block ≡ 0) where
  same_bitmap : (i : ℕ) → i < bits_per_block → bitmap_block v.sb (b + i) ≡ bitmap_block v.sb b
  same_bitmap i h = omega arith

  in_use-bit :
      (i : ℕ)
      → i < bits_per_block
      → in_use v (b + i) ≡ not (is_free (v.blocks (bitmap_block v.sb b)) i)
  unfolding in_use
  in_use-bit i h = let off : (b + i) % bits_per_block ≡ i = omega arith in rw (same_bitmap i h, off)

  in_use_bits :
      (n : ℕ)
      → n ≤ bits_per_block
      → ((i : ℕ) → i < n → is_free (v.blocks (bitmap_block v.sb b)) i ≡ false)
      → (c : ℕ) → b ≤ c
      → c < b + n
      → in_use v c ≡ true
  in_use_bits n le all c lo hi =
      let e : b + (c - b) ≡ c = omega arith in
      rw e at (in_use-bit (c - b) (omega arith) ∙ ap not (all (c - b) (omega arith)))

abbrev Found : ℕ → Volume → Outcome (ℕ × Volume) → Type 0
Found b v r =
    ((r ≡ panic) × ((c : ℕ) → b ≤ c → c < v.sb.size → in_use v c ≡ true))
    ⊎ ((k : ℕ) × (r ≡ ok (k, taken k v))
        × (b ≤ k)
        × (k < v.sb.size)
        × (in_use v k ≡ false)
        × ((c : ℕ) → b ≤ c → c < k → in_use v c ≡ true))

balloc_from-Found :
    (fuel b : ℕ) (v : Volume)
    → b % bits_per_block ≡ 0
    → v.sb.size < b + fuel
    → Found b v (balloc_from fuel b v)
unfolding balloc_from bzero
balloc_from-Found zero b v aligned enough = inl (refl, λ c lo hi. absurd (omega arith))
balloc_from-Found (suc fuel) b v aligned enough = elim (dec_lt b v.sb.size) [
  | no h ↦
      let past : ltb b v.sb.size ≡ false = ground arith in
      rw past (inl (refl, λ c lo hi. absurd (omega arith)))
  | yes h ↦
      let inside : ltb b v.sb.size ≡ true = ground arith in
      let n : ℕ = min bits_per_block (v.sb.size - b) in
      rw inside (elim (find_bit_lem n 0 (v.blocks (bitmap_block v.sb b))) [
        | inl (e, all) ↦
            let here =
              in_use_bits v b aligned n (omega arith) (λ i hi. all i (omega arith) (omega arith)) in
            rw e (elim (balloc_from-Found fuel (b + bits_per_block) v (omega arith) (omega arith)) [
              | inl (r, rest) ↦ inl (
                r,
                λ c lo hi. elim (dec_lt c (b + bits_per_block)) [
                  | yes c1 ↦ here c lo (omega arith)
                  | no c2 ↦ rest c (omega arith) hi
                ],
              )
              | inr (k, r, lo, hi, free, rest) ↦ inr (
                k,
                r,
                omega arith,
                hi,
                free,
                λ c lo' hi'. elim (dec_lt c (b + bits_per_block)) [
                  | yes c1 ↦ here c lo' (omega arith)
                  | no c2 ↦ rest c (omega arith) hi'
                ],
              )
            ])
        | inr (i, e, lo, hi, free, all) ↦
            let off : (b + i) % bits_per_block ≡ i = omega arith in
            rw e (
              inr (
                b + i,
                rw (same_bitmap v b aligned i (omega arith), off),
                omega arith,
                omega arith,
                in_use-bit v b aligned i (omega arith) ∙ ap not free,
                in_use_bits v b aligned i (omega arith) (λ j hj. all j (omega arith) hj),
              ))
      ])
]

-- balloc panics and every block below `size` is in use; or it takes the first block that is not,
-- and returns it: its bit is set, it is zeroed, and both blocks are logged.
pub balloc_lem : (v : Volume) → Found 0 v (balloc v)
unfolding balloc
balloc_lem v = balloc_from-Found (suc v.sb.size) 0 v (omega arith) (omega arith)

-- What the change does, if the block is none of the bitmap's.
module _ (k : ℕ) (v : Volume) where
  pub taken-zero : (i : ℕ) → (taken k v).blocks k i ≡ 0
  unfolding bzero
  taken-zero i = rw (==_refl k)

  pub taken-other : (c : ℕ) → c ≢ k → c ≢ bitmap_block v.sb k → (taken k v).blocks c ≡ v.blocks c
  unfolding bzero
  taken-other c ne nb =
      rw (ne→== k c (λ e. ne (sym e)), ne→== (bitmap_block v.sb k) c (λ e. nb (sym e)))

  pub taken-in_use :
      (c : ℕ)
      → k ≢ bitmap_block v.sb c
      → in_use (taken k v) c ≡ (if k == c then true else in_use v c)
  unfolding bzero in_use
  taken-in_use c apart = elim (ℕ_discrete (bitmap_block v.sb k) (bitmap_block v.sb c)) [
    | yes e ↦
        let test : (bitmap_block v.sb k == bitmap_block v.sb c) ≡ true = ground arith in
        let changed : (taken k v).blocks (bitmap_block v.sb c)
            ≡ mark (k % bits_per_block) (v.blocks (bitmap_block v.sb c)) =
          rw (ne→== k (bitmap_block v.sb c) apart, test)
            (ap (λ x. mark (k % bits_per_block) (v.blocks x)) e) in
        let d = v.blocks (bitmap_block v.sb c) in
        ap (λ x. not (is_free x (c % bits_per_block))) changed ∙ elim (ℕ_discrete k c) [
          | yes q ↦ rw (q, ==_refl c) (ap not (mark_self d (c % bits_per_block)))
          | no nq ↦
              rw (ne→== k c nq)
                (ap not (mark_other d (k % bits_per_block) (c % bits_per_block) (omega arith)))
        ]
    | no ne ↦
        let same : (taken k v).blocks (bitmap_block v.sb c) ≡ v.blocks (bitmap_block v.sb c) =
          rw (ne→== k (bitmap_block v.sb c) apart, ne→== _ _ ne) in
        ap (λ x. not (is_free x (c % bits_per_block))) same
        ∙ rw (ne→== k c (λ e. ne (ap (bitmap_block v.sb) e)))
  ]

-- How many of the blocks below `n` are not in use.
unfoldable pub free_below : ℕ → Volume → ℕ
free_below zero v = 0
free_below (suc n) v = free_below n v + (if in_use v n then 0 else 1)

pub free_below-same :
    (n : ℕ) (v w : Volume)
    → ((c : ℕ) → c < n → in_use w c ≡ in_use v c)
    → free_below n w ≡ free_below n v
unfolding free_below
free_below-same zero v w same = refl
free_below-same (suc n) v w same =
    rw (free_below-same n v w (λ c h. same c (omega arith)), same n (omega arith))

-- One block fewer when a free block is taken.
pub free_below-less :
    (n k : ℕ) (v w : Volume)
    → k < n
    → in_use v k ≡ false
    → ((c : ℕ) → c < n → in_use w c ≡ (if k == c then true else in_use v c))
    → free_below n v ≡ free_below n w + 1
unfolding free_below
free_below-less zero k v w h free eff = absurd (omega arith)
free_below-less (suc n) k v w h free eff = elim (ℕ_discrete k n) [
  | yes e ↦
      let old : in_use v n ≡ false = rw e at free in
      let new : in_use w n ≡ true = eff n (omega arith) ∙ rw (e, ==_refl n) in
      let rest =
        free_below-same n v w (λ c hc. eff c (omega arith) ∙ rw (ne→== k c (omega arith))) in
      rw (old, new) (omega (arith, rest))
  | no ne ↦
      let rest = free_below-less n k v w (omega arith) free (λ c hc. eff c (omega arith)) in
      let top : in_use w n ≡ in_use v n = eff n (omega arith) ∙ rw (ne→== k n ne) in
      rw top (omega (arith, rest))
]

pub free_below-none :
    (n : ℕ) (v : Volume) → ((c : ℕ) → c < n → in_use v c ≡ true) → free_below n v ≡ 0
unfolding free_below
free_below-none zero v all = refl
free_below-none (suc n) v all =
    rw (all n (omega arith)) (omega (arith, free_below-none n v (λ c h. all c (omega arith))))
