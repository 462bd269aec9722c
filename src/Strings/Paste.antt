-- ===== src/Strings/Paste.antt =====
-- string.c: a memory in which a block of bytes has been replaced.
use native.Mathlib.Decide.{ℕ_discrete, dec_lt, dec_le}
use schoolstuff.Base.{
  ℕ, suc, ◌+◌, ◌-◌, ◌≤◌, ◌<◌, ◌≡◌, ◌⊎◌, true, false, ◌&&◌, arith, ltb, leb, if◌then◌else◌, update,
  inl, inr, ne→==, ==_refl, ◌∙◌, sym, ap,
}
use schoolstuff.Strings.{Memory}

-- The memory with `n` bytes at `d` that are those of `f`, and the others those of `m`.
abbrev pub pasted : ℕ → ℕ → (ℕ → ℕ) → Memory → Memory
pasted d n f m a = if leb d a && ltb a (d + n) then f (a - d) else m a

pub pasted-inside :
    (d n : ℕ) (f : ℕ → ℕ) (m : Memory) (a : ℕ) → d ≤ a → a < d + n → pasted d n f m a ≡ f (a - d)
pasted-inside d n f m a h1 h2 =
    let inside : (leb d a && ltb a (d + n)) ≡ true = ground arith in rw inside

pub pasted-outside :
    (d n : ℕ) (f : ℕ → ℕ) (m : Memory) (a : ℕ) → (a < d) ⊎ (d + n ≤ a) → pasted d n f m a ≡ m a
pasted-outside d n f m a h =
    let outside : (leb d a && ltb a (d + n)) ≡ false = ground arith in rw outside

-- One more byte at the front.
pub pasted-front :
    (d n v : ℕ) (f g : ℕ → ℕ) (m : Memory) (a : ℕ)
    → v ≡ f 0
    → ((i : ℕ) → i < n → g i ≡ f (i + 1))
    → pasted (d + 1) n g (update m d v) a ≡ pasted d (suc n) f m a
pasted-front d n v f g m a head same = elim (dec_le d a) [
  | yes lo ↦ elim (dec_lt a (d + suc n)) [
    | yes hi ↦ elim (ℕ_discrete d a) [
      | yes q ↦
          let i : a - d ≡ 0 = omega arith in
          pasted-outside (d + 1) n g (update m d v) a (inl (omega arith))
          ∙ rw (q, ==_refl a)
              (head
                ∙ sym (
                    pasted-inside a (suc n) f m a (omega arith) (omega arith) ∙ ap f (omega arith)))
      | no q ↦
          pasted-inside (d + 1) n g (update m d v) a (omega arith) (omega arith)
          ∙ same (a - (d + 1)) (omega arith)
          ∙ ap f (omega arith)
          ∙ sym (pasted-inside d (suc n) f m a lo hi)
    ]
    | no hi ↦
        pasted-outside (d + 1) n g (update m d v) a (inr (omega arith))
        ∙ rw (ne→== d a (omega arith)) (sym (pasted-outside d (suc n) f m a (inr (omega arith))))
  ]
  | no lo ↦
      pasted-outside (d + 1) n g (update m d v) a (inl (omega arith))
      ∙ rw (ne→== d a (omega arith)) (sym (pasted-outside d (suc n) f m a (inl (omega arith))))
]

-- One more byte at the back.
pub pasted-back :
    (d n v : ℕ) (f g : ℕ → ℕ) (m : Memory) (a : ℕ)
    → v ≡ f n
    → ((i : ℕ) → i < n → g i ≡ f i)
    → pasted d n g (update m (d + n) v) a ≡ pasted d (suc n) f m a
pasted-back d n v f g m a tail same = elim (dec_le d a) [
  | yes lo ↦ elim (dec_lt a (d + suc n)) [
    | yes hi ↦ elim (ℕ_discrete (d + n) a) [
      | yes q ↦
          pasted-outside d n g (update m (d + n) v) a (inr (omega arith))
          ∙ rw (q, ==_refl a)
              (tail ∙ sym (pasted-inside d (suc n) f m a lo hi ∙ ap f (omega arith)))
      | no q ↦
          pasted-inside d n g (update m (d + n) v) a lo (omega arith)
          ∙ same (a - d) (omega arith)
          ∙ sym (pasted-inside d (suc n) f m a lo hi)
    ]
    | no hi ↦
        pasted-outside d n g (update m (d + n) v) a (inr (omega arith))
        ∙ rw (ne→== (d + n) a (omega arith))
            (sym (pasted-outside d (suc n) f m a (inr (omega arith))))
  ]
  | no lo ↦
      pasted-outside d n g (update m (d + n) v) a (inl (omega arith))
      ∙ rw (ne→== (d + n) a (omega arith))
          (sym (pasted-outside d (suc n) f m a (inl (omega arith))))
]
