-- ===== src/Fs/Bmap.antt =====
-- fs.c: `bmap` keeps the contents of a file, and puts a block of its own behind the slot asked for.
use std.Path.{fun_ext}
use native.Mathlib.Decide.{ℕ_discrete, dec_lt}
use schoolstuff.Base.{
  ℕ, ◌+◌, ◌-◌, ◌*◌, ◌≤◌, ◌<◌, ◌≡◌, ◌≢◌, ◌⊎◌, refl, true, false, arith, ltb, ◌==◌, update, inl, inr,
  ne→==, ==_refl, ◌∙◌, ap, lt→ltb,
}
use schoolstuff.Base.Outcome.{Outcome, ok, panic, ◌>>=◌}
use schoolstuff.Fs.{block_size, max_file, n_direct, n_indirect, Superblock, Volume, word_at, bzero}
use schoolstuff.Fs.Blocks.{in_use, taken, free_below, free_below-none, balloc_lem}
use schoolstuff.Fs.Inode.{Inode, alloc_unless, indirect_entry, bmap}
use schoolstuff.Fs.Slots.{
  n_slots, slot, slot-direct, slot-indirect, Layout, Owns, content, Filled, Filled-Owns,
  Filled-content, Filled-free,
}
use schoolstuff.Fs.Fill.{with_direct, direct-Filled, indirect-Filled, entry-Filled}

-- The file after `bmap`: the same contents, with a block of its own behind slot `k`, at the cost of
-- `cost` free blocks at most.
pub record Mapped (meta : ℕ) (ip : Inode) (v : Volume) (ip' : Inode) (v' : Volume) (k addr cost : ℕ)
    : Type 0 where
  pub sb : v'.sb ≡ v.sb
  pub inode : ip' ≡ record ip { addrs = ip'.addrs }
  pub owns : Owns meta ip' v'
  pub same : (off : ℕ) → off < max_file * block_size → content ip' v' off ≡ content ip v off
  pub at_slot : slot ip' v' k ≡ addr
  pub some_block : addr ≢ 0
  pub stays : (j : ℕ) → j < n_slots → slot ip v j ≢ 0 → slot ip' v' j ≡ slot ip v j
  pub free : free_below v.sb.size v ≤ free_below v.sb.size v' + cost

pub update-same {ℓ} : {A : Type ℓ} (f : ℕ → A) (k : ℕ) → update f k (f k) ≡ f
update-same f k =
    fun_ext (λ j. elim (ℕ_discrete k j) [ yes e ↦ rw (e, ==_refl j) | no ne ↦ rw (ne→== k j ne) ])

Filled-Mapped :
    (meta : ℕ) (ip : Inode) (v : Volume) (ip' : Inode) (v' : Volume) (k b : ℕ)
    → Layout v.sb meta
    → k < n_slots
    → Owns meta ip v
    → ip' ≡ record ip { addrs = ip'.addrs }
    → Filled meta ip v ip' v' k b
    → Mapped meta ip v ip' v' k b 1
Filled-Mapped meta ip v ip' v' k b layout k_ok owns inode filled = record {
  sb = filled.sb;
  inode = inode;
  owns = Filled-Owns meta ip v ip' v' k b layout k_ok owns filled;
  same = Filled-content meta ip v ip' v' k b layout k_ok owns filled;
  at_slot = filled.filled;
  some_block = omega (arith, filled.range, layout.some_meta);
  stays = λ j h nz. filled.others j h (λ e. nz (ap (slot ip v) e ∙ filled.empty));
  free = omega (arith, Filled-free meta ip v ip' v' k b layout k_ok owns filled);
}

-- What a call comes to: a panic with fewer than `cost` blocks free, or such a file.
abbrev pub Maps : ℕ → Inode → Volume → ℕ → ℕ → Outcome (ℕ × Inode × Volume) → Type 0
Maps meta ip v k cost r =
    ((r ≡ panic) × (free_below v.sb.size v < cost))
    ⊎ ((addr : ℕ) × (ip' : Inode) × (v' : Volume) × (r ≡ ok (addr, ip', v'))
        × Mapped meta ip v ip' v' k addr cost)

module _ (meta : ℕ) (ip : Inode) (v : Volume) (layout : Layout v.sb meta)
    (owns : Owns meta ip v) where
  none_free : ((c : ℕ) → 0 ≤ c → c < v.sb.size → in_use v c ≡ true) → free_below v.sb.size v ≡ 0
  none_free all = free_below-none v.sb.size v (λ c h. all c (omega arith) h)

  there-Mapped :
      (k addr cost : ℕ) → slot ip v k ≡ addr → addr ≢ 0 → Mapped meta ip v ip v k addr cost
  there-Mapped k addr cost e nz = record {
    sb = refl;
    inode = refl;
    owns = owns;
    same = λ off h. refl;
    at_slot = e;
    some_block = nz;
    stays = λ j h n. refl;
    free = omega arith;
  }

  entry_lem :
      (i : ℕ)
      → i < n_indirect
      → ip.addrs n_direct ≢ 0
      → Maps meta ip v (n_direct + i) 1 (indirect_entry (ip.addrs n_direct) i ip v)
  unfolding indirect_entry
  entry_lem i h nz =
      let k : n_direct + i - n_direct ≡ i = omega arith in
      let is_slot : slot ip v (n_direct + i) ≡ word_at (v.blocks (ip.addrs n_direct)) (4 * i) =
        rw k at (slot-indirect ip v (n_direct + i) (omega arith) (omega arith) nz) in
      elim (ℕ_discrete (word_at (v.blocks (ip.addrs n_direct)) (4 * i)) 0) [
        | no there ↦
            rw (ne→== _ 0 there)
              (inr (_, ip, v, refl, there-Mapped (n_direct + i) _ 1 is_slot there))
        | yes z ↦
            let test : (word_at (v.blocks (ip.addrs n_direct)) (4 * i) == 0) ≡ true =
              ground arith in
            rw test (elim (balloc_lem v) [
              | inl (e, all) ↦ rw e (inl (refl, omega (arith, none_free all)))
              | inr (b, e, lo, small, free, first) ↦ rw e (
                  inr (
                    b,
                    ip,
                    _,
                    refl,
                    Filled-Mapped meta ip v ip _ (n_direct + i) b layout (omega arith) owns refl
                        (entry-Filled meta ip v layout owns b small free i h nz (is_slot ∙ z)),
                  ))
            ])
      ]

-- One call after another.
Maps-trans :
    (meta : ℕ) (ip : Inode) (v : Volume) (ip1 : Inode) (v1 : Volume) (j a k : ℕ)
    (r : Outcome (ℕ × Inode × Volume))
    → Mapped meta ip v ip1 v1 j a 1
    → Maps meta ip1 v1 k 1 r
    → Maps meta ip v k 2 r
Maps-trans meta ip v ip1 v1 j a k r first maps =
    let size : v1.sb.size ≡ v.sb.size = ap (λ (s : Superblock). s.size) first.sb in
    let left : free_below v1.sb.size v1 ≡ free_below v.sb.size v1 =
      ap (λ n. free_below n v1) size in
    elim maps [
      | inl (e, none_free) ↦ inl (e, omega (arith, first.free, left))
      | inr (addr, ip', v', e, next) ↦
          let left' : free_below v1.sb.size v' ≡ free_below v.sb.size v' =
            ap (λ n. free_below n v') size in
          inr (
            addr,
            ip',
            v',
            e,
            record {
              sb = next.sb ∙ first.sb;
              inode = next.inode ∙ ap (λ (x : Inode). record x { addrs = ip'.addrs }) first.inode;
              owns = next.owns;
              same = λ off h. next.same off h ∙ first.same off h;
              at_slot = next.at_slot;
              some_block = next.some_block;
              stays = λ j h nz. let q = first.stays j h nz in next.stays j h (rw q nz) ∙ q;
              free = omega (arith, first.free, next.free, left, left');
            },
          )
    ]

Maps-weaken :
    (meta : ℕ) (ip : Inode) (v : Volume) (k : ℕ) (r : Outcome (ℕ × Inode × Volume))
    → Maps meta ip v k 1 r
    → Maps meta ip v k 2 r
Maps-weaken meta ip v k r maps = elim maps [
  | inl (e, none_free) ↦ inl (e, omega arith)
  | inr (addr, ip', v', e, m) ↦ inr (
    addr,
    ip',
    v',
    e,
    record {
      sb = m.sb;
      inode = m.inode;
      owns = m.owns;
      same = m.same;
      at_slot = m.at_slot;
      some_block = m.some_block;
      stays = m.stays;
      free = omega (arith, m.free);
    },
  )
]

module _ (meta : ℕ) (ip : Inode) (v : Volume) (layout : Layout v.sb meta)
    (owns : Owns meta ip v) where
  direct_lem :
      (bn : ℕ)
      → bn < n_direct
      → Maps meta ip v bn 1 (
          alloc_unless (ip.addrs bn) v >>= λ (p : ℕ × Volume).
          ok (p.0, record ip { addrs = update ip.addrs bn p.0 }, p.1))
  unfolding with_direct
  direct_lem bn h = elim (ℕ_discrete (ip.addrs bn) 0) [
    | no there ↦
        rw (ne→== _ 0 there, update-same ip.addrs bn)
          (inr (
            _,
            ip,
            v,
            refl,
            there-Mapped meta ip v layout owns bn _ 1 (slot-direct ip v bn h) there,
          ))
    | yes z ↦
        let test : (ip.addrs bn == 0) ≡ true = ground arith in
        rw test (elim (balloc_lem v) [
          | inl (e, all) ↦ rw e (inl (refl, omega (arith, none_free meta ip v layout owns all)))
          | inr (b, e, lo, small, free, first) ↦ rw e (
              inr (
                b,
                _,
                _,
                refl,
                Filled-Mapped meta ip v _ _ bn b layout (omega arith) owns refl
                    (direct-Filled meta ip v layout owns b small free bn h z),
              ))
        ])
  ]

  through_indirect :
      (i : ℕ)
      → i < n_indirect
      → Maps meta ip v (n_direct + i) 2 (
          alloc_unless (ip.addrs n_direct) v >>= λ (p : ℕ × Volume).
          indirect_entry p.0 i (record ip { addrs = update ip.addrs n_direct p.0 }) p.1)
  unfolding with_direct bzero
  through_indirect i h = elim (ℕ_discrete (ip.addrs n_direct) 0) [
    | no there ↦
        rw (ne→== _ 0 there, update-same ip.addrs n_direct)
          (Maps-weaken meta ip v (n_direct + i) _ (entry_lem meta ip v layout owns i h there))
    | yes z ↦
        let test : (ip.addrs n_direct == 0) ≡ true = ground arith in
        rw test (elim (balloc_lem v) [
          | inl (e, all) ↦ rw e (inl (refl, omega (arith, none_free meta ip v layout owns all)))
          | inr (b, e, lo, small, free, first) ↦
              let filled = indirect-Filled meta ip v layout owns b small free z in
              let mapped =
                Filled-Mapped meta ip v _ _ max_file b layout (omega arith) owns refl filled in
              rw e (
                Maps-trans meta ip v _ _ max_file b (n_direct + i) _ mapped (
                  entry_lem meta _ (taken b v) layout (mapped.owns) i h
                    (omega (arith, mapped.some_block))))
        ])
  ]

  -- For a disk with a proper layout and a file that owns its blocks, bmap of a block number below
  -- MAXFILE, its calls of log_write left aside, panics only with fewer than two free blocks. Otherwise it
  -- returns a block, not block 0, that is now the file's block of that number; the contents of the
  -- file are as before, holes and all, no two of its blocks are the same, and all are in use.
  pub bmap_lem : (bn : ℕ) → bn < max_file → Maps meta ip v bn 2 (bmap ip bn v)
  unfolding bmap
  bmap_lem bn h = elim (dec_lt bn n_direct) [
    | yes lt ↦ rw (lt→ltb bn n_direct lt) (Maps-weaken meta ip v bn _ (direct_lem bn lt))
    | no ge ↦
        let past : ltb bn n_direct ≡ false = ground arith in
        let inside : ltb (bn - n_direct) n_indirect ≡ true = ground arith in
        let e : n_direct + (bn - n_direct) ≡ bn = omega arith in
        rw (past, inside) (rw e at (through_indirect (bn - n_direct) (omega arith)))
  ]
