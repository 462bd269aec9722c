-- ===== src/Fs/Write.antt =====
-- fs.c: `writei` changes the bytes of a file that it is to write, and no others.
use std.Path.{fun_ext}
use native.Mathlib.Decide.{dec_lt}
use mathlib.Core.Path.{subst}
use schoolstuff.Base.{
  ℕ, zero, suc, ◌+◌, ◌-◌, ◌*◌, ◌/◌, ◌%◌, ◌≤◌, ◌<◌, ◌≡◌, refl, true, false, arith, ltb,
  if◌then◌else◌, inl, inr, ◌∙◌, sym, ap, min,
}
use schoolstuff.Base.Outcome.{ok}
use schoolstuff.Strings.Paste.{pasted, pasted-outside}
use schoolstuff.Fs.{block_size, max_file, Superblock, Volume}
use schoolstuff.Fs.Blocks.{free_below}
use schoolstuff.Fs.Inode.{Inode, Buffer, write_from}
use schoolstuff.Fs.Slots.{Layout, Owns, content}
use schoolstuff.Fs.Bmap.{bmap_lem}
use schoolstuff.Fs.Content.{pasted-join, pasted-ext}
-- The file after `len` bytes `f` have been written from byte `off` on.
use schoolstuff.Fs.Round.{Wrote, v2, round-free, round-Wrote}

Wrote-trans :
    (meta : ℕ) (ip : Inode) (v : Volume) (ip1 : Inode) (v1 : Volume) (ip' : Inode) (v' : Volume)
    (off m k : ℕ) (f g : ℕ → ℕ)
    → 0 < m
    → ((i : ℕ) → g i ≡ f (m + i))
    → Wrote meta ip v ip1 v1 off m f
    → Wrote meta ip1 v1 ip' v' (off + m) k g
    → Wrote meta ip v ip' v' off (m + k) f
Wrote-trans meta ip v ip1 v1 ip' v' off m k f g pos same a b = record {
  sb = b.sb ∙ a.sb;
  inode = b.inode ∙ ap (λ (x : Inode). record x { addrs = ip'.addrs }) a.inode;
  owns = b.owns;
  bytes = λ p h.
      b.bytes p h
      ∙ pasted-ext (off + m) k g g (content ip1 v1) (pasted off m f (content ip v)) p (λ i hi. refl)
          (a.bytes p h)
      ∙ pasted-join off m k f g (content ip v) p same;
  stays = λ j h nz. b.stays j h (a.stays j h nz);
  reached = λ some j h lo hi. elim (dec_lt (j * block_size) (off + m)) [
    | yes first ↦ b.stays j h (a.reached pos j h lo first)
    | no later ↦ b.reached (omega arith) j h (omega arith) (omega arith)
  ];
}

Wrote-next :
    (meta : ℕ) (ip : Inode) (v : Volume) (ip1 : Inode) (v1 : Volume) (ip' : Inode) (v' : Volume)
    (off off' m k len : ℕ) (f g : ℕ → ℕ)
    → off + m ≡ off'
    → m + k ≡ len
    → 0 < m
    → ((i : ℕ) → g i ≡ f (m + i))
    → Wrote meta ip v ip1 v1 off m f
    → Wrote meta ip1 v1 ip' v' off' k g
    → Wrote meta ip v ip' v' off len f
Wrote-next meta ip v ip1 v1 ip' v' off off' m k len f g eo el pos same a b =
    subst (λ n. Wrote meta ip v ip' v' off n f) el
      (Wrote-trans meta ip v ip1 v1 ip' v' off m k f g pos same a
        (subst (λ o. Wrote meta ip1 v1 ip' v' o k g) (sym eo) b))

pub Wrote-from :
    (meta : ℕ) (ip : Inode) (v : Volume) (ip' : Inode) (v' : Volume) (off off' n len : ℕ)
    (f g : ℕ → ℕ)
    → off ≡ off'
    → n ≡ len
    → ((i : ℕ) → f i ≡ g i)
    → Wrote meta ip v ip' v' off n f
    → Wrote meta ip v ip' v' off' len g
Wrote-from meta ip v ip' v' off off' n len f g eo en same w =
    subst (λ h. Wrote meta ip v ip' v' off' len h) (fun_ext same)
      (subst (λ k. Wrote meta ip v ip' v' off' k f) en
        (subst (λ o. Wrote meta ip v ip' v' o n f) eo w))

nothing-Wrote :
    (meta : ℕ) (ip : Inode) (v : Volume) (off : ℕ) (f : ℕ → ℕ)
    → Owns meta ip v
    → Wrote meta ip v ip v off 0 f
nothing-Wrote meta ip v off f owns = record {
  sb = refl;
  inode = refl;
  owns = owns;
  bytes = λ p h. sym (pasted-outside off 0 f (content ip v) p (omega arith));
  stays = λ j h nz. nz;
  reached = λ pos j h lo hi. absurd (omega arith);
}

-- Two free blocks at most for each block between two offsets, but the blocks of none if there is
-- nothing between them.
abbrev pub Spent : Volume → Volume → ℕ → ℕ → Type 0
Spent v v' lo hi =
    free_below v.sb.size v
    ≤ free_below v.sb.size v'
      + (if ltb lo hi then 2 * ((hi + 511) / block_size - lo / block_size) else 0)

Spent-next :
    (v v1 v2 v' : Volume) (start n tot m : ℕ)
    → tot < n
    → m ≡ min (n - tot) (block_size - (start + tot) % block_size)
    → free_below v.sb.size v ≤ free_below v.sb.size v1 + 2
    → free_below v1.sb.size v2 ≡ free_below v1.sb.size v1
    → free_below v1.sb.size v1 ≡ free_below v.sb.size v1
    → free_below v1.sb.size v' ≡ free_below v.sb.size v'
    → free_below v1.sb.size v2
      ≤ free_below v1.sb.size v'
        + (if ltb (start + (tot + m)) (start + n)
            then 2 * ((start + n + 511) / block_size - (start + (tot + m)) / block_size)
            else 0)
    → Spent v v' (start + tot) (start + n)
Spent-next v v1 v2 v' start n tot m more m_is first left same same' rest =
    elim (dec_lt (start + (tot + m)) (start + n)) [
      | yes on ↦
          let t1 : ltb (start + (tot + m)) (start + n) ≡ true = ground arith in
          let t2 : ltb (start + tot) (start + n) ≡ true = ground arith in
          let rest' : free_below v1.sb.size v2
              ≤ free_below v1.sb.size v'
                + 2 * ((start + n + 511) / block_size - (start + (tot + m)) / block_size) =
            rw t1 at rest in
          rw t2 (omega arith)
      | no over ↦
          let t1 : ltb (start + (tot + m)) (start + n) ≡ false = ground arith in
          let t2 : ltb (start + tot) (start + n) ≡ true = ground arith in
          let rest' : free_below v1.sb.size v2 ≤ free_below v1.sb.size v' + 0 = rw t1 at rest in
          rw t2 (omega arith)
    ]

pub write_from_lem :
    (meta n start : ℕ) (src : Buffer) (fuel tot : ℕ) (ip : Inode) (v : Volume)
    → start + n ≤ max_file * block_size
    → Layout v.sb meta
    → Owns meta ip v
    → tot ≤ n
    → n - tot < fuel
    → (tot < n
        → 2 * ((start + n + 511) / block_size - (start + tot) / block_size)
          ≤ free_below v.sb.size v)
    → (ip' : Inode) × (v' : Volume) × (write_from fuel tot (start + tot) n src ip v
        ≡ ok (start + n, ip', v'))
      × Wrote meta ip v ip' v' (start + tot) (n - tot) (λ i. src (tot + i))
      × Spent v v' (start + tot) (start + n)
unfolding write_from
write_from_lem meta n start src zero tot ip v inside layout owns le enough free =
    absurd (omega arith)
write_from_lem meta n start src (suc fuel) tot ip v inside layout owns le enough free =
    elim (dec_lt tot n) [
      | no done ↦
          let test : ltb tot n ≡ false = ground arith in
          let none_left : n - tot ≡ 0 = omega arith in
          let at_end : start + tot ≡ start + n = omega arith in
          rw (test, none_left)
            (
              ip,
              v,
              rw at_end refl,
              nothing-Wrote meta ip v (start + tot) (λ i. src (tot + i)) owns,
              omega arith,
            )
      | yes more ↦
          let test : ltb tot n ≡ true = ground arith in
          let off : ℕ = start + tot in
          let m : ℕ = min (n - tot) (block_size - off % block_size) in
          rw test (elim (bmap_lem meta ip v layout owns (off / block_size) (omega arith)) [
            | inl (e, poor) ↦ absurd (omega (arith, free more))
            | inr (addr, ip1, v1, e, mapped) ↦
                let f : ℕ → ℕ = λ i. src (tot + i) in
                let round =
                  round-Wrote meta ip v ip1 v1 off addr m f layout (omega arith) (omega arith)
                    mapped in
                let left =
                  round-free meta ip v ip1 v1 off addr m f layout (omega arith) (omega arith)
                    mapped in
                let size : v1.sb.size ≡ v.sb.size = ap (λ (s : Superblock). s.size) mapped.sb in
                let same_left : free_below v1.sb.size v1 ≡ free_below v.sb.size v1 =
                  ap (λ c. free_below c v1) size in
                let step : start + tot + m ≡ start + (tot + m) = omega arith in
                let (ip', v', run, rest, spent) =
                  write_from_lem meta n start src fuel (tot + m) ip1
                    (v2 meta ip v ip1 v1 off addr m f layout (omega arith) (omega arith) mapped)
                    inside (subst (λ s. Layout s meta) (sym mapped.sb) layout) round.owns
                    (omega arith) (omega arith)
                    (λ more'.
                      let enough' = free more in omega (arith, left, same_left, mapped.free)) in
                let all =
                  Wrote-next meta ip v ip1 _ ip' v' off (start + (tot + m)) m (n - (tot + m))
                    (n - tot) f (λ i. src (tot + m + i)) step (omega arith) (omega arith)
                    (λ i. ap src (omega arith)) round rest in
                let size2 : free_below v1.sb.size v' ≡ free_below v.sb.size v' =
                  ap (λ c. free_below c v') size in
                let spent_all =
                  Spent-next v v1
                    (v2 meta ip v ip1 v1 off addr m f layout (omega arith) (omega arith) mapped) v'
                    start n tot m more refl mapped.free left same_left size2 spent in
                rw (e, step) (ip', v', run, all, spent_all)
          ])
    ]
