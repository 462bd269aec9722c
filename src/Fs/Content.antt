-- ===== src/Fs/Content.antt =====
-- fs.c: `readi` and `writei` read and write the bytes of a file.
use native.Mathlib.Decide.{dec_lt, dec_le}
use schoolstuff.Base.{
  ℕ, zero, suc, ◌+◌, ◌-◌, ◌*◌, ◌/◌, ◌%◌, ◌^◌, ◌≤◌, ◌<◌, ◌≡◌, ◌≢◌, refl, true, false, ◌||◌, some,
  arith, ltb, if◌then◌else◌, inl, inr, ne→==, ◌∙◌, sym, ap, lt→ltb, min, add32,
}
use schoolstuff.Base.Outcome.{ok}
use schoolstuff.Strings.Paste.{pasted, pasted-inside, pasted-outside}
use schoolstuff.Fs.{block_size, max_file, n_direct, n_indirect, Volume, word_at}
use schoolstuff.Fs.Inode.{t_dev, Inode, Buffer, Devsw, indirect_entry, bmap, read_from, readi}
use schoolstuff.Fs.Slots.{slot, slot-direct, slot-indirect, slot-none, content}
use schoolstuff.Fs.Bmap.{update-same}

-- Every block of the contents up to `size` is there: the files that the kernel makes have no holes.
abbrev pub Dense : Inode → Volume → ℕ → Type 0
Dense ip v size = (k : ℕ) → k < max_file → k * block_size < size → slot ip v k ≢ 0

-- bmap of a block that is there changes nothing.
pub bmap-there :
    (ip : Inode) (v : Volume) (bn : ℕ)
    → bn < max_file
    → slot ip v bn ≢ 0
    → bmap ip bn v ≡ ok (slot ip v bn, ip, v)
unfolding bmap indirect_entry
bmap-there ip v bn h nz = elim (dec_lt bn n_direct) [
  | yes lt ↦
      let e = slot-direct ip v bn lt in
      let there : ip.addrs bn ≢ 0 = rw e at nz in
      rw (lt→ltb bn n_direct lt, ne→== _ 0 there, update-same ip.addrs bn, e)
  | no ge ↦
      let past : ltb bn n_direct ≡ false = ground arith in
      let inside : ltb (bn - n_direct) n_indirect ≡ true = ground arith in
      let there : ip.addrs n_direct ≢ 0 =
        λ z. nz (slot-none ip v bn (omega arith) (omega arith) z) in
      let e = slot-indirect ip v bn (omega arith) (omega arith) there in
      let entry : word_at (v.blocks (ip.addrs n_direct)) (4 * (bn - n_direct)) ≢ 0 = rw e at nz in
      rw (past, inside, ne→== _ 0 there, update-same ip.addrs n_direct, ne→== _ 0 entry, e)
]

-- The bytes of the file that follow in one block.
pub content-block :
    (ip : Inode) (v : Volume) (off i : ℕ)
    → off % block_size + i < block_size
    → slot ip v (off / block_size) ≢ 0
    → content ip v (off + i) ≡ v.blocks (slot ip v (off / block_size)) (off % block_size + i)
unfolding content
content-block ip v off i h nz =
    let bn : (off + i) / block_size ≡ off / block_size = omega arith in
    let o : (off + i) % block_size ≡ off % block_size + i = omega arith in rw (bn, o, ne→== _ 0 nz)

-- A block of bytes pasted in two parts.
pub pasted-join :
    (d m k : ℕ) (f : ℕ → ℕ) (g : ℕ → ℕ) (c : ℕ → ℕ) (a : ℕ)
    → ((i : ℕ) → g i ≡ f (m + i))
    → pasted (d + m) k g (pasted d m f c) a ≡ pasted d (m + k) f c a
pasted-join d m k f g c a same = elim (dec_lt a (d + m)) [
  | yes lt ↦ pasted-outside (d + m) k g (pasted d m f c) a (inl lt) ∙ elim (dec_le d a) [
    | yes lo ↦ pasted-inside d m f c a lo lt ∙ sym (pasted-inside d (m + k) f c a lo (omega arith))
    | no lo ↦
        pasted-outside d m f c a (inl (omega arith))
        ∙ sym (pasted-outside d (m + k) f c a (inl (omega arith)))
  ]
  | no ge ↦ elim (dec_lt a (d + m + k)) [
    | yes lt ↦
        pasted-inside (d + m) k g (pasted d m f c) a (omega arith) lt
        ∙ same (a - (d + m))
        ∙ ap f (omega arith)
        ∙ sym (pasted-inside d (m + k) f c a (omega arith) (omega arith))
    | no out ↦
        pasted-outside (d + m) k g (pasted d m f c) a (inr (omega arith))
        ∙ pasted-outside d m f c a (inr (omega arith))
        ∙ sym (pasted-outside d (m + k) f c a (inr (omega arith)))
  ]
]

-- Only the bytes that are pasted count, and those around them.
pub pasted-ext :
    (d n : ℕ) (f g : ℕ → ℕ) (c e : ℕ → ℕ) (a : ℕ)
    → ((i : ℕ) → i < n → f i ≡ g i)
    → c a ≡ e a
    → pasted d n f c a ≡ pasted d n g e a
pasted-ext d n f g c e a same around = elim (dec_le d a) [
  | yes lo ↦ elim (dec_lt a (d + n)) [
    | yes hi ↦
        pasted-inside d n f c a lo hi
        ∙ same (a - d) (omega arith)
        ∙ sym (pasted-inside d n g e a lo hi)
    | no hi ↦
        pasted-outside d n f c a (inr (omega arith))
        ∙ around
        ∙ sym (pasted-outside d n g e a (inr (omega arith)))
  ]
  | no lo ↦
      pasted-outside d n f c a (inl (omega arith))
      ∙ around
      ∙ sym (pasted-outside d n g e a (inl (omega arith)))
]

module _ (ip : Inode) (v : Volume) (n start : ℕ) (dense : Dense ip v (start + n))
    (inside : start + n ≤ max_file * block_size) where
  read_from_lem :
      (fuel tot : ℕ) (dst : Buffer)
      → tot ≤ n
      → n - tot < fuel
      → (dst' : Buffer) × (read_from fuel tot (start + tot) n ip v dst ≡ ok (dst', ip, v))
        × ((a : ℕ) → dst' a ≡ pasted tot (n - tot) (λ i. content ip v (start + tot + i)) dst a)
  unfolding read_from
  read_from_lem zero tot dst le enough = absurd (omega arith)
  read_from_lem (suc fuel) tot dst le enough = elim (dec_lt tot n) [
    | no done ↦
        let test : ltb tot n ≡ false = ground arith in
        let none_left : n - tot ≡ 0 = omega arith in
        rw (test, none_left)
          (
            dst,
            refl,
            λ a.
                sym
                  (pasted-outside tot 0 (λ i. content ip v (start + tot + i)) dst a (omega arith)),
          )
    | yes more ↦
        let test : ltb tot n ≡ true = ground arith in
        let off : ℕ = start + tot in
        let bn : ℕ = off / block_size in
        let m : ℕ = min (n - tot) (block_size - off % block_size) in
        let there = dense bn (omega arith) (omega arith) in
        let got = bmap-there ip v bn (omega arith) there in
        let dst1 : Buffer =
          pasted tot m (λ i. v.blocks (slot ip v bn) (off % block_size + i)) dst in
        let (dst', run, bytes) = read_from_lem fuel (tot + m) dst1 (omega arith) (omega arith) in
        let step : off + m ≡ start + (tot + m) = omega arith in
        let left : m + (n - (tot + m)) ≡ n - tot = omega arith in
        rw (test, got)
          (
            dst',
            rw step run,
            λ a.
                bytes a
                ∙ pasted-ext (tot + m) (n - (tot + m)) (λ i. content ip v (start + (tot + m) + i))
                    (λ i. content ip v (start + tot + (m + i))) dst1
                    (pasted tot m (λ i. content ip v (start + tot + i)) dst) a
                    (λ i h. ap (content ip v) (omega arith))
                    (pasted-ext tot m (λ i. v.blocks (slot ip v bn) (off % block_size + i))
                      (λ i. content ip v (start + tot + i)) dst dst a
                      (λ i h. sym (content-block ip v off i (omega arith) there)) refl)
                ∙ rw left at (
                    pasted-join tot m (n - (tot + m)) (λ i. content ip v (start + tot + i))
                      (λ i. content ip v (start + tot + (m + i))) dst a (λ i. refl)),
          )
  ]

  read_all :
      (dst : Buffer)
      → (dst' : Buffer) × (read_from (suc n) 0 start n ip v dst ≡ ok (dst', ip, v))
        × ((a : ℕ) → dst' a ≡ pasted 0 n (λ i. content ip v (start + i)) dst a)
  read_all dst =
      let z : start + 0 ≡ start = omega arith in
      let all : n - 0 ≡ n = omega arith in
      rw (z, all) at (read_from_lem (suc n) 0 dst (omega arith) (omega arith))

-- readi of a file that is not a device and has no holes, from an offset within it, copies the bytes
-- of the file up to its end or to the `n` bytes asked for to the buffer, whatever blocks they lie
-- in, returns their number and changes neither the file nor the rest of the buffer.
pub readi_lem :
    (k : Devsw) (ip : Inode) (v : Volume) (off n : ℕ) (dst : Buffer)
    → ip.type ≢ t_dev
    → Dense ip v ip.size
    → ip.size ≤ max_file * block_size
    → off ≤ ip.size
    → off + n < 2 ^ 32
    → let count = min n (ip.size - off) in
      (dst' : Buffer) × (readi k ip off n v dst ≡ ok (some count, dst', ip, v))
      × ((a : ℕ) → dst' a ≡ pasted 0 count (λ i. content ip v (off + i)) dst a)
unfolding readi
readi_lem k ip v off n dst file dense size_ok within no_wrap =
    let count : ℕ = min n (ip.size - off) in
    let shorter : (if ltb ip.size (add32 off n) then ip.size - off else n) ≡ count = ground arith in
    let bounds : (ltb ip.size off || ltb (add32 off n) off) ≡ false = ground arith in
    let (dst', run, bytes) =
      read_all ip v count off (λ j hj h. dense j hj (omega arith)) (omega arith) dst in
    rw (ne→== _ t_dev file, bounds, shorter, run) (dst', refl, bytes)
