-- ===== src/Fs/Fill.antt =====
-- fs.c: the three ways in which `bmap` puts a free block behind an empty slot.
use native.Mathlib.Decide.{ℕ_discrete, dec_lt, dec_le}
use schoolstuff.Base.{
  ℕ, ◌+◌, ◌-◌, ◌*◌, ◌≤◌, ◌<◌, ◌≡◌, ◌≢◌, refl, true, false, arith, ltb, ◌==◌, if◌then◌else◌, update,
  inl, inr, ne→==, ==_refl, ◌∙◌, sym, ap, lt→ltb,
}
use schoolstuff.Fs.{
  max_file, n_direct, n_indirect, Block, Volume, log_block, word_at, put_word, bitmap_block, bzero,
}
use schoolstuff.Fs.Blocks.{in_use, taken, taken-zero, taken-other, taken-in_use}
use schoolstuff.Fs.Inode.{Inode}
use schoolstuff.Fs.Slots.{
  word_at-put_word_self, word_at-put_word_other, n_slots, slot, slot-direct, slot-last,
  slot-indirect, slot-none, Layout, Owns, Filled,
}

pub in_use-log_block :
    (a : ℕ) (d : Block) (v : Volume) (c : ℕ)
    → a ≢ bitmap_block v.sb c
    → in_use (log_block a d v) c ≡ in_use v c
unfolding in_use
in_use-log_block a d v c ne = rw (ne→== a _ ne)

module _ (meta : ℕ) (ip : Inode) (v : Volume) (layout : Layout v.sb meta) (owns : Owns meta ip v)
    (b : ℕ) (small : b < v.sb.size) (free : in_use v b ≡ false) where
  in_data : meta ≤ b
  in_data = elim (dec_le meta b) [
    | yes h ↦ h
    | no h ↦ let u = owns.low b (omega arith) in absurd (ground (arith, u, free))
  ]

  bits : (c : ℕ) → c < v.sb.size → in_use (taken b v) c ≡ (if b == c then true else in_use v c)
  bits c h = taken-in_use b v c (omega (arith, layout.bitmap c h, in_data))

  pub kept : (c : ℕ) → meta ≤ c → c ≢ b → (taken b v).blocks c ≡ v.blocks c
  kept c h ne = taken-other b v c ne (omega (arith, layout.bitmap b small))

  -- The indirect block, if there is one.
  indirect_data :
      ip.addrs n_direct ≢ 0
      → (meta ≤ ip.addrs n_direct) × (ip.addrs n_direct ≢ b) × (ip.addrs n_direct < v.sb.size)
  indirect_data nz = elim (owns.good max_file (omega arith)) [
    | inl z ↦ absurd (nz (sym (slot-last ip v) ∙ z))
    | inr (lo, hi, used) ↦
        let e = slot-last ip v in
        let used' : in_use v (ip.addrs n_direct) ≡ true = rw e at used in
        (
          rw e at lo,
          λ q. let u : in_use v b ≡ true = rw q at used' in absurd (ground (arith, u, free)),
          rw e at hi,
        )
  ]

  unfoldable pub with_direct : ℕ → Inode
  with_direct bn = record ip { addrs = update ip.addrs bn b }

  direct-others :
      (bn : ℕ)
      → bn < n_direct
      → (j : ℕ) → j < n_slots
      → j ≢ bn
      → slot (with_direct bn) (taken b v) j ≡ slot ip v j
  unfolding slot with_direct
  direct-others bn h j hj ne = rw (ne→== bn n_direct (omega arith)) (elim (dec_lt j n_direct) [
    | yes lt ↦ rw (lt→ltb j n_direct lt, ne→== bn j (λ e. ne (sym e)))
    | no ge ↦
        let past : ltb j n_direct ≡ false = ground arith in
        elim (ℕ_discrete (ip.addrs n_direct) 0) [
          | yes z ↦ rw (past, z)
          | no nz ↦
              let (lo, nb, _) = indirect_data nz in
              rw (past, ne→== (ip.addrs n_direct) 0 nz, kept (ip.addrs n_direct) lo nb)
        ]
  ])

  pub direct-Filled :
      (bn : ℕ)
      → bn < n_direct
      → ip.addrs bn ≡ 0
      → Filled meta ip v (with_direct bn) (taken b v) bn b
  unfolding with_direct bzero
  direct-Filled bn h z = record {
    sb = refl;
    range = (in_data, small);
    was_free = free;
    empty = slot-direct ip v bn h ∙ z;
    filled = slot-direct (with_direct bn) (taken b v) bn h ∙ rw (==_refl bn);
    others = direct-others bn h;
    zeroed = λ ne i. taken-zero b v i;
    kept = λ c lo nb nl. kept c lo nb;
    bits = bits;
  }

  -- A new indirect block is empty.
  indirect-others :
      ip.addrs n_direct ≡ 0
      → (j : ℕ) → j < n_slots
      → j ≢ max_file
      → slot (with_direct n_direct) (taken b v) j ≡ slot ip v j
  unfolding with_direct
  indirect-others z j hj ne = elim (dec_lt j n_direct) [
    | yes lt ↦
        slot-direct (with_direct n_direct) (taken b v) j lt
        ∙ rw (ne→== n_direct j (omega arith)) (sym (slot-direct ip v j lt))
    | no ge ↦
        let o = 4 * (j - n_direct) in
        slot-indirect (with_direct n_direct) (taken b v) j (omega arith) (omega arith)
          (omega (arith, in_data, layout.some_meta))
        ∙ (omega (
          arith,
          taken-zero b v o,
          taken-zero b v (o + 1),
          taken-zero b v (o + 2),
          taken-zero b v (o + 3),
        ))
        ∙ sym (slot-none ip v j (omega arith) (omega arith) z)
  ]

  pub indirect-Filled :
      ip.addrs n_direct ≡ 0 → Filled meta ip v (with_direct n_direct) (taken b v) max_file b
  unfolding with_direct bzero
  indirect-Filled z = record {
    sb = refl;
    range = (in_data, small);
    was_free = free;
    empty = slot-last ip v ∙ z;
    filled = slot-last (with_direct n_direct) (taken b v);
    others = indirect-others z;
    zeroed = λ ne i. absurd (ne refl);
    kept = λ c lo nb nl. kept c lo nb;
    bits = bits;
  }

  -- The entry of an indirect block that is there.
  abbrev pub with_entry : ℕ → Volume
  with_entry i =
      let a = ip.addrs n_direct in
      log_block a (put_word (4 * i) b ((taken b v).blocks a)) (taken b v)

  entry-others :
      (i : ℕ)
      → ip.addrs n_direct ≢ 0
      → (j : ℕ) → j < n_slots
      → j ≢ n_direct + i
      → slot ip (with_entry i) j ≡ slot ip v j
  entry-others i nz j hj ne = elim (dec_lt j n_direct) [
    | yes lt ↦ slot-direct ip (with_entry i) j lt ∙ sym (slot-direct ip v j lt)
    | no ge ↦ elim (ℕ_discrete j max_file) [
      | yes e ↦ rw e (slot-last ip (with_entry i) ∙ sym (slot-last ip v))
      | no ne' ↦
          let (lo, nb, _) = indirect_data nz in
          slot-indirect ip (with_entry i) j (omega arith) (omega arith) nz
          ∙ rw (==_refl (ip.addrs n_direct)) (
              word_at-put_word_other (4 * i) b ((taken b v).blocks (ip.addrs n_direct))
                (4 * (j - n_direct)) (omega arith))
          ∙ ap (λ (d : Block). word_at d (4 * (j - n_direct))) (kept (ip.addrs n_direct) lo nb)
          ∙ sym (slot-indirect ip v j (omega arith) (omega arith) nz)
    ]
  ]

  pub entry-Filled :
      (i : ℕ)
      → i < n_indirect
      → ip.addrs n_direct ≢ 0
      → slot ip v (n_direct + i) ≡ 0
      → Filled meta ip v ip (with_entry i) (n_direct + i) b
  unfolding bzero
  entry-Filled i h nz z =
      let a = ip.addrs n_direct in
      let (lo, nb, hi) = indirect_data nz in
      let k : n_direct + i - n_direct ≡ i = omega arith in
      record {
        sb = refl;
        range = (in_data, small);
        was_free = free;
        empty = z;
        filled =
            slot-indirect ip (with_entry i) (n_direct + i) (omega arith) (omega arith) nz
            ∙ rw (==_refl a, k)
                (word_at-put_word_self (4 * i) b ((taken b v).blocks a)
                  (omega (arith, layout.words)));
        others = entry-others i nz;
        zeroed = λ ne p. rw (ne→== a b nb) (taken-zero b v p);
        kept = λ c lo' nb' nl.
            rw (ne→== a c (λ e. nl (sym e ∙ sym (slot-last ip (with_entry i))))) (kept c lo' nb');
        bits = λ c hc.
            in_use-log_block a (put_word (4 * i) b ((taken b v).blocks a)) (taken b v) c
              (omega (arith, layout.bitmap c hc))
            ∙ bits c hc;
      }
