-- ===== src/Fs/Bits.antt =====
-- fs.c: the bits of the bytes of the bitmap, position by position.
use schoolstuff.Base.{ℕ, zero, suc, ◌<◌, ◌≡◌, ◌≢◌, arith}
use schoolstuff.Fs.{bit_of, set_bit, clear_bit}

by_bit : (P : ℕ → Type 0) → P 0 → P 1 → P 2 → P 3 → P 4 → P 5 → P 6 → P 7 → (k : ℕ) → k < 8 → P k
by_bit P p0 p1 p2 p3 p4 p5 p6 p7 zero h = p0
by_bit P p0 p1 p2 p3 p4 p5 p6 p7 (suc zero) h = p1
by_bit P p0 p1 p2 p3 p4 p5 p6 p7 (suc (suc zero)) h = p2
by_bit P p0 p1 p2 p3 p4 p5 p6 p7 (suc (suc (suc zero))) h = p3
by_bit P p0 p1 p2 p3 p4 p5 p6 p7 (suc (suc (suc (suc zero)))) h = p4
by_bit P p0 p1 p2 p3 p4 p5 p6 p7 (suc (suc (suc (suc (suc zero))))) h = p5
by_bit P p0 p1 p2 p3 p4 p5 p6 p7 (suc (suc (suc (suc (suc (suc zero)))))) h = p6
by_bit P p0 p1 p2 p3 p4 p5 p6 p7 (suc (suc (suc (suc (suc (suc (suc zero))))))) h = p7
by_bit P p0 p1 p2 p3 p4 p5 p6 p7 (suc (suc (suc (suc (suc (suc (suc (suc k)))))))) h =
    absurd (omega arith)

pub bit_set_self : (x k : ℕ) → k < 8 → bit_of (set_bit x k) k ≡ 1
bit_set_self x =
    by_bit (λ k. bit_of (set_bit x k) k ≡ 1) (omega arith) (omega arith) (omega arith) (omega arith)
      (omega arith) (omega arith) (omega arith) (omega arith)

bit_set_ne_0 : (x j : ℕ) → j < 8 → 0 ≢ j → bit_of (set_bit x 0) j ≡ bit_of x j
bit_set_ne_0 x =
    by_bit (λ j. 0 ≢ j → bit_of (set_bit x 0) j ≡ bit_of x j) (λ h. absurd (omega arith))
      (λ h. omega arith) (λ h. omega arith) (λ h. omega arith) (λ h. omega arith) (λ h. omega arith)
      (λ h. omega arith) (λ h. omega arith)

bit_set_ne_1 : (x j : ℕ) → j < 8 → 1 ≢ j → bit_of (set_bit x 1) j ≡ bit_of x j
bit_set_ne_1 x =
    by_bit (λ j. 1 ≢ j → bit_of (set_bit x 1) j ≡ bit_of x j) (λ h. omega arith)
      (λ h. absurd (omega arith)) (λ h. omega arith) (λ h. omega arith) (λ h. omega arith)
      (λ h. omega arith) (λ h. omega arith) (λ h. omega arith)

bit_set_ne_2 : (x j : ℕ) → j < 8 → 2 ≢ j → bit_of (set_bit x 2) j ≡ bit_of x j
bit_set_ne_2 x =
    by_bit (λ j. 2 ≢ j → bit_of (set_bit x 2) j ≡ bit_of x j) (λ h. omega arith) (λ h. omega arith)
      (λ h. absurd (omega arith)) (λ h. omega arith) (λ h. omega arith) (λ h. omega arith)
      (λ h. omega arith) (λ h. omega arith)

bit_set_ne_3 : (x j : ℕ) → j < 8 → 3 ≢ j → bit_of (set_bit x 3) j ≡ bit_of x j
bit_set_ne_3 x =
    by_bit (λ j. 3 ≢ j → bit_of (set_bit x 3) j ≡ bit_of x j) (λ h. omega arith) (λ h. omega arith)
      (λ h. omega arith) (λ h. absurd (omega arith)) (λ h. omega arith) (λ h. omega arith)
      (λ h. omega arith) (λ h. omega arith)

bit_set_ne_4 : (x j : ℕ) → j < 8 → 4 ≢ j → bit_of (set_bit x 4) j ≡ bit_of x j
bit_set_ne_4 x =
    by_bit (λ j. 4 ≢ j → bit_of (set_bit x 4) j ≡ bit_of x j) (λ h. omega arith) (λ h. omega arith)
      (λ h. omega arith) (λ h. omega arith) (λ h. absurd (omega arith)) (λ h. omega arith)
      (λ h. omega arith) (λ h. omega arith)

bit_set_ne_5 : (x j : ℕ) → j < 8 → 5 ≢ j → bit_of (set_bit x 5) j ≡ bit_of x j
bit_set_ne_5 x =
    by_bit (λ j. 5 ≢ j → bit_of (set_bit x 5) j ≡ bit_of x j) (λ h. omega arith) (λ h. omega arith)
      (λ h. omega arith) (λ h. omega arith) (λ h. omega arith) (λ h. absurd (omega arith))
      (λ h. omega arith) (λ h. omega arith)

bit_set_ne_6 : (x j : ℕ) → j < 8 → 6 ≢ j → bit_of (set_bit x 6) j ≡ bit_of x j
bit_set_ne_6 x =
    by_bit (λ j. 6 ≢ j → bit_of (set_bit x 6) j ≡ bit_of x j) (λ h. omega arith) (λ h. omega arith)
      (λ h. omega arith) (λ h. omega arith) (λ h. omega arith) (λ h. omega arith)
      (λ h. absurd (omega arith)) (λ h. omega arith)

bit_set_ne_7 : (x j : ℕ) → j < 8 → 7 ≢ j → bit_of (set_bit x 7) j ≡ bit_of x j
bit_set_ne_7 x =
    by_bit (λ j. 7 ≢ j → bit_of (set_bit x 7) j ≡ bit_of x j) (λ h. omega arith) (λ h. omega arith)
      (λ h. omega arith) (λ h. omega arith) (λ h. omega arith) (λ h. omega arith) (λ h. omega arith)
      (λ h. absurd (omega arith))

pub bit_set_ne : (x k : ℕ) → k < 8 → (j : ℕ) → j < 8 → k ≢ j → bit_of (set_bit x k) j ≡ bit_of x j
bit_set_ne x =
    by_bit (λ k. (j : ℕ) → j < 8 → k ≢ j → bit_of (set_bit x k) j ≡ bit_of x j) (bit_set_ne_0 x)
      (bit_set_ne_1 x) (bit_set_ne_2 x) (bit_set_ne_3 x) (bit_set_ne_4 x) (bit_set_ne_5 x)
      (bit_set_ne_6 x) (bit_set_ne_7 x)

pub bit_clear_self : (x k : ℕ) → k < 8 → bit_of (clear_bit x k) k ≡ 0
bit_clear_self x =
    by_bit (λ k. bit_of (clear_bit x k) k ≡ 0) (omega arith) (omega arith) (omega arith)
      (omega arith) (omega arith) (omega arith) (omega arith) (omega arith)

bit_clear_ne_0 : (x j : ℕ) → j < 8 → 0 ≢ j → bit_of (clear_bit x 0) j ≡ bit_of x j
bit_clear_ne_0 x =
    by_bit (λ j. 0 ≢ j → bit_of (clear_bit x 0) j ≡ bit_of x j) (λ h. absurd (omega arith))
      (λ h. omega arith) (λ h. omega arith) (λ h. omega arith) (λ h. omega arith) (λ h. omega arith)
      (λ h. omega arith) (λ h. omega arith)

bit_clear_ne_1 : (x j : ℕ) → j < 8 → 1 ≢ j → bit_of (clear_bit x 1) j ≡ bit_of x j
bit_clear_ne_1 x =
    by_bit (λ j. 1 ≢ j → bit_of (clear_bit x 1) j ≡ bit_of x j) (λ h. omega arith)
      (λ h. absurd (omega arith)) (λ h. omega arith) (λ h. omega arith) (λ h. omega arith)
      (λ h. omega arith) (λ h. omega arith) (λ h. omega arith)

bit_clear_ne_2 : (x j : ℕ) → j < 8 → 2 ≢ j → bit_of (clear_bit x 2) j ≡ bit_of x j
bit_clear_ne_2 x =
    by_bit (λ j. 2 ≢ j → bit_of (clear_bit x 2) j ≡ bit_of x j) (λ h. omega arith)
      (λ h. omega arith) (λ h. absurd (omega arith)) (λ h. omega arith) (λ h. omega arith)
      (λ h. omega arith) (λ h. omega arith) (λ h. omega arith)

bit_clear_ne_3 : (x j : ℕ) → j < 8 → 3 ≢ j → bit_of (clear_bit x 3) j ≡ bit_of x j
bit_clear_ne_3 x =
    by_bit (λ j. 3 ≢ j → bit_of (clear_bit x 3) j ≡ bit_of x j) (λ h. omega arith)
      (λ h. omega arith) (λ h. omega arith) (λ h. absurd (omega arith)) (λ h. omega arith)
      (λ h. omega arith) (λ h. omega arith) (λ h. omega arith)

bit_clear_ne_4 : (x j : ℕ) → j < 8 → 4 ≢ j → bit_of (clear_bit x 4) j ≡ bit_of x j
bit_clear_ne_4 x =
    by_bit (λ j. 4 ≢ j → bit_of (clear_bit x 4) j ≡ bit_of x j) (λ h. omega arith)
      (λ h. omega arith) (λ h. omega arith) (λ h. omega arith) (λ h. absurd (omega arith))
      (λ h. omega arith) (λ h. omega arith) (λ h. omega arith)

bit_clear_ne_5 : (x j : ℕ) → j < 8 → 5 ≢ j → bit_of (clear_bit x 5) j ≡ bit_of x j
bit_clear_ne_5 x =
    by_bit (λ j. 5 ≢ j → bit_of (clear_bit x 5) j ≡ bit_of x j) (λ h. omega arith)
      (λ h. omega arith) (λ h. omega arith) (λ h. omega arith) (λ h. omega arith)
      (λ h. absurd (omega arith)) (λ h. omega arith) (λ h. omega arith)

bit_clear_ne_6 : (x j : ℕ) → j < 8 → 6 ≢ j → bit_of (clear_bit x 6) j ≡ bit_of x j
bit_clear_ne_6 x =
    by_bit (λ j. 6 ≢ j → bit_of (clear_bit x 6) j ≡ bit_of x j) (λ h. omega arith)
      (λ h. omega arith) (λ h. omega arith) (λ h. omega arith) (λ h. omega arith) (λ h. omega arith)
      (λ h. absurd (omega arith)) (λ h. omega arith)

bit_clear_ne_7 : (x j : ℕ) → j < 8 → 7 ≢ j → bit_of (clear_bit x 7) j ≡ bit_of x j
bit_clear_ne_7 x =
    by_bit (λ j. 7 ≢ j → bit_of (clear_bit x 7) j ≡ bit_of x j) (λ h. omega arith)
      (λ h. omega arith) (λ h. omega arith) (λ h. omega arith) (λ h. omega arith) (λ h. omega arith)
      (λ h. omega arith) (λ h. absurd (omega arith))

pub bit_clear_ne :
    (x k : ℕ) → k < 8 → (j : ℕ) → j < 8 → k ≢ j → bit_of (clear_bit x k) j ≡ bit_of x j
bit_clear_ne x =
    by_bit (λ k. (j : ℕ) → j < 8 → k ≢ j → bit_of (clear_bit x k) j ≡ bit_of x j) (bit_clear_ne_0 x)
      (bit_clear_ne_1 x) (bit_clear_ne_2 x) (bit_clear_ne_3 x) (bit_clear_ne_4 x) (bit_clear_ne_5 x)
      (bit_clear_ne_6 x) (bit_clear_ne_7 x)
