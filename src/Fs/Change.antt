-- ===== src/Fs/Change.antt =====
-- fs.c: a change of one block, seen from a file: of its inode's block, or of a block of its contents.
use native.Mathlib.Decide.{ℕ_discrete, dec_lt}
use schoolstuff.Base.{
  ℕ, ◌*◌, ◌/◌, ◌%◌, ◌<◌, ◌≡◌, ◌≢◌, true, arith, ◌==◌, if◌then◌else◌, inl, inr, ne→==, ◌∙◌, sym,
}
use schoolstuff.Fs.{block_size, max_file, n_direct, Block, Volume, log_block, bitmap_block}
use schoolstuff.Fs.Blocks.{in_use, free_below, free_below-same}
use schoolstuff.Fs.Inode.{Inode}
use schoolstuff.Fs.Slots.{
  n_slots, slot, slot-direct, slot-last, slot-indirect, slot-none, Layout, Owns, content,
}
use schoolstuff.Fs.Fill.{in_use-log_block}

module _ (meta : ℕ) (ip : Inode) (v : Volume) (layout : Layout v.sb meta) (owns : Owns meta ip v)
    (c : ℕ) (d : Block) (no_bitmap : (b : ℕ) → b < v.sb.size → c ≢ bitmap_block v.sb b)
    (no_indirect : slot ip v max_file ≢ 0 → c ≢ slot ip v max_file) where
  pub changed-in_use : (b : ℕ) → b < v.sb.size → in_use (log_block c d v) b ≡ in_use v b
  changed-in_use b h = in_use-log_block c d v b (no_bitmap b h)

  pub changed-slot : (k : ℕ) → k < n_slots → slot ip (log_block c d v) k ≡ slot ip v k
  changed-slot k h = elim (dec_lt k n_direct) [
    | yes lt ↦ slot-direct ip (log_block c d v) k lt ∙ sym (slot-direct ip v k lt)
    | no ge ↦ elim (ℕ_discrete k max_file) [
      | yes e ↦ rw e (slot-last ip (log_block c d v) ∙ sym (slot-last ip v))
      | no ne ↦ elim (ℕ_discrete (ip.addrs n_direct) 0) [
        | yes z ↦
            slot-none ip (log_block c d v) k (omega arith) (omega arith) z
            ∙ sym (slot-none ip v k (omega arith) (omega arith) z)
        | no nz ↦
            let apart : c ≢ ip.addrs n_direct = rw (slot-last ip v) at no_indirect nz in
            slot-indirect ip (log_block c d v) k (omega arith) (omega arith) nz
            ∙ rw (ne→== c _ apart) (sym (slot-indirect ip v k (omega arith) (omega arith) nz))
      ]
    ]
  ]

  pub changed-free : free_below v.sb.size (log_block c d v) ≡ free_below v.sb.size v
  changed-free = free_below-same v.sb.size v (log_block c d v) changed-in_use

  pub changed-Owns : Owns meta ip (log_block c d v)
  changed-Owns = record {
    low = λ b h. changed-in_use b (omega (arith, layout.fits)) ∙ owns.low b h;
    good = λ k h. rw (changed-slot k h) (elim (owns.good k h) [
      | inl z ↦ inl z
      | inr (lo, hi, used) ↦ inr (lo, hi, changed-in_use (slot ip v k) hi ∙ used)
    ]);
    inj = λ j k hj hk nz e.
        owns.inj j k hj hk (rw (changed-slot j hj) at nz)
          (sym (changed-slot j hj) ∙ e ∙ changed-slot k hk);
  }

  -- The bytes of the file that lie in the block change with it.
  pub changed-content :
      (off : ℕ)
      → off < max_file * block_size
      → content ip (log_block c d v) off ≡ (
          if slot ip v (off / block_size) == 0
          then 0
          else if c == slot ip v (off / block_size)
          then d (off % block_size)
          else content ip v off)
  unfolding content
  changed-content off h =
      rw (changed-slot (off / block_size) (omega arith))
        (elim (ℕ_discrete (slot ip v (off / block_size)) 0) [
          | yes z ↦ rw z
          | no nz ↦ rw (ne→== _ 0 nz) (elim (ℕ_discrete c (slot ip v (off / block_size))) [
            | yes e ↦
                let test : (c == slot ip v (off / block_size)) ≡ true = ground arith in rw test
            | no ne ↦ rw (ne→== c _ ne)
          ])
        ])
