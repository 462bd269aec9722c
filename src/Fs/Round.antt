-- ===== src/Fs/Round.antt =====
-- fs.c: one round of the loop of `writei`, and what a write leaves of a file.
use native.Mathlib.Decide.{ℕ_discrete, dec_lt, dec_le}
use mathlib.Core.Path.{subst}
use schoolstuff.Base.{
  ℕ, ◌+◌, ◌*◌, ◌/◌, ◌%◌, ◌≤◌, ◌<◌, ◌≡◌, ◌≢◌, refl, true, arith, ◌==◌, inl, inr, ne→==, ==_refl, ◌∙◌,
  sym, ap,
}
use schoolstuff.Strings.Paste.{pasted, pasted-inside, pasted-outside}
use schoolstuff.Fs.{block_size, max_file, Block, Volume, log_block, bitmap_block}
use schoolstuff.Fs.Blocks.{free_below}
use schoolstuff.Fs.Inode.{Inode}
use schoolstuff.Fs.Slots.{n_slots, slot, Layout, Owns, content}
use schoolstuff.Fs.Bmap.{Mapped}
use schoolstuff.Fs.Change.{changed-slot, changed-Owns, changed-content, changed-free}
use schoolstuff.Fs.Content.{pasted-ext}

-- The file after `len` bytes `f` have been written from byte `off` on.
pub record Wrote (meta : ℕ) (ip : Inode) (v : Volume) (ip' : Inode) (v' : Volume) (off len : ℕ)
    (f : ℕ → ℕ) : Type 0 where
  pub sb : v'.sb ≡ v.sb
  pub inode : ip' ≡ record ip { addrs = ip'.addrs }
  pub owns : Owns meta ip' v'
  pub bytes :
      (p : ℕ) → p < max_file * block_size → content ip' v' p ≡ pasted off len f (content ip v) p
  pub stays : (j : ℕ) → j < max_file → slot ip v j ≢ 0 → slot ip' v' j ≢ 0
  pub reached :
      0 < len
      → (j : ℕ) → j < max_file
      → off < (j + 1) * block_size
      → j * block_size < off + len
      → slot ip' v' j ≢ 0

content-at :
    (ip : Inode) (v : Volume) (p s : ℕ)
    → slot ip v (p / block_size) ≡ s
    → s ≢ 0
    → content ip v p ≡ v.blocks s (p % block_size)
unfolding content
content-at ip v p s e nz = rw (e, ne→== s 0 nz)

pub content-none :
    (ip : Inode) (v : Volume) (p : ℕ) → slot ip v (p / block_size) ≡ 0 → content ip v p ≡ 0
unfolding content
content-none ip v p e = rw e

-- Bytes pasted into a block are pasted into the file.
pasted-block :
    (off m : ℕ) (f : ℕ → ℕ) (d c : ℕ → ℕ) (p : ℕ)
    → p / block_size ≡ off / block_size
    → off % block_size + m ≤ block_size
    → c p ≡ d (p % block_size)
    → pasted (off % block_size) m f d (p % block_size) ≡ pasted off m f c p
pasted-block off m f d c p same within around = elim (dec_le off p) [
  | yes lo ↦ elim (dec_lt p (off + m)) [
    | yes hi ↦
        pasted-inside (off % block_size) m f d (p % block_size) (omega arith) (omega arith)
        ∙ ap f (omega arith)
        ∙ sym (pasted-inside off m f c p lo hi)
    | no hi ↦
        pasted-outside (off % block_size) m f d (p % block_size) (inr (omega arith))
        ∙ sym around
        ∙ sym (pasted-outside off m f c p (inr (omega arith)))
  ]
  | no lo ↦
      pasted-outside (off % block_size) m f d (p % block_size) (inl (omega arith))
      ∙ sym around
      ∙ sym (pasted-outside off m f c p (inl (omega arith)))
]

module _ (meta : ℕ) (ip : Inode) (v : Volume) (ip1 : Inode) (v1 : Volume) (off addr m : ℕ)
    (f : ℕ → ℕ) (layout : Layout v.sb meta) (small : off / block_size < max_file)
    (within : off % block_size + m ≤ block_size)
    (mapped : Mapped meta ip v ip1 v1 (off / block_size) addr 2) where
  layout1 : Layout v1.sb meta
  layout1 = subst (λ s. Layout s meta) (sym mapped.sb) layout

  is_slot : slot ip1 v1 (off / block_size) ≡ addr
  is_slot = mapped.at_slot

  in_data : meta ≤ addr
  in_data = elim (mapped.owns.good (off / block_size) (omega arith)) [
    | inl z ↦ absurd (mapped.some_block (sym is_slot ∙ z))
    | inr (lo, hi, used) ↦ omega (arith, is_slot)
  ]

  no_bitmap : (b : ℕ) → b < v1.sb.size → addr ≢ bitmap_block v1.sb b
  no_bitmap b h = omega (arith, layout1.bitmap b h, in_data)

  -- A slot other than the one written does not hold the block written.
  apart : (j : ℕ) → j < n_slots → j ≢ off / block_size → addr ≢ slot ip1 v1 j
  apart j h ne e = ne (
      sym (
        mapped.owns.inj (off / block_size) j (omega arith) h
          (λ z. mapped.some_block (sym is_slot ∙ z)) (is_slot ∙ e)))

  abbrev written : Block
  written = pasted (off % block_size) m f (v1.blocks addr)

  abbrev pub v2 : Volume
  v2 = log_block addr written v1

  no_indirect : slot ip1 v1 max_file ≢ 0 → addr ≢ slot ip1 v1 max_file
  no_indirect nz = apart max_file (omega arith) (omega arith)

  round-bytes :
      (p : ℕ) → p < max_file * block_size → content ip1 v2 p ≡ pasted off m f (content ip1 v1) p
  round-bytes p h =
      changed-content meta ip1 v1 layout1 mapped.owns addr written no_bitmap no_indirect p h
      ∙ elim (ℕ_discrete (p / block_size) (off / block_size)) [
        | yes e ↦
            let s : slot ip1 v1 (p / block_size) ≡ addr = ap (slot ip1 v1) e ∙ is_slot in
            let there : content ip1 v1 p ≡ v1.blocks addr (p % block_size) =
              content-at ip1 v1 p addr s mapped.some_block in
            rw (s, ne→== addr 0 mapped.some_block, ==_refl addr)
              (pasted-block off m f (v1.blocks addr) (content ip1 v1) p e within there)
        | no ne ↦ sym (
            pasted-outside off m f (content ip1 v1) p (omega arith)
            ∙ sym (elim (ℕ_discrete (slot ip1 v1 (p / block_size)) 0) [
              | yes z ↦
                  let test : (slot ip1 v1 (p / block_size) == 0) ≡ true = ground arith in
                  rw test (sym (content-none ip1 v1 p z))
              | no nz ↦ rw (ne→== _ 0 nz, ne→== addr _ (apart (p / block_size) (omega arith) ne))
            ]))
      ]

  pub round-free : free_below v1.sb.size v2 ≡ free_below v1.sb.size v1
  round-free = changed-free meta ip1 v1 layout1 mapped.owns addr written no_bitmap no_indirect

  pub round-Wrote : Wrote meta ip v ip1 v2 off m f
  round-Wrote = record {
    sb = mapped.sb;
    inode = mapped.inode;
    owns = changed-Owns meta ip1 v1 layout1 mapped.owns addr written no_bitmap no_indirect;
    bytes = λ p h.
        round-bytes p h
        ∙ pasted-ext off m f f (content ip1 v1) (content ip v) p (λ i hi. refl) (mapped.same p h);
    stays = λ j h nz.
        rw
          (
            changed-slot meta ip1 v1 layout1 mapped.owns addr written no_bitmap no_indirect j
                (omega arith),
            mapped.stays j (omega arith) nz,
          )
          nz;
    reached = λ pos j h lo hi.
        let j_is : j ≡ off / block_size = omega arith in
        rw
          (
            changed-slot meta ip1 v1 layout1 mapped.owns addr written no_bitmap no_indirect j
                (omega arith),
            j_is,
            is_slot,
          )
          mapped.some_block;
  }
