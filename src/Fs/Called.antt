-- ===== src/Fs/Called.antt =====
-- fs.c: how many calls of log_write balloc, bmap and writei make, and that they log what they change.
use native.Mathlib.Decide.{dec_lt, dec_le}
use schoolstuff.Base.{
  ℕ, zero, suc, ◌+◌, ◌-◌, ◌*◌, ◌/◌, ◌%◌, ◌≤◌, ◌<◌, ◌≡◌, refl, true, false, ◌&&◌, arith, ltb, leb,
  ◌==◌, if◌then◌else◌, inl, inr, Bool-cases, min, Option, update, add32, ◌||◌,
}
use schoolstuff.Base.Outcome.{Outcome, ok, panic, OnOk, OnOk-then}
use schoolstuff.Strings.Paste.{pasted}
use schoolstuff.Fs.{
  mark, bits_per_block, bitmap_block, block_size, n_direct, n_indirect, Volume, log_block, bzero,
  balloc, word_at, max_file,
}
use schoolstuff.Fs.Blocks.{balloc_lem}
use schoolstuff.Fs.Inode.{
  inode_block, Inode, Buffer, Devsw, t_dev, ndev, alloc_unless, indirect_entry, bmap, iupdate,
  write_from, grow, writei,
}
use schoolstuff.Fs.Logging.{Calls, Calls-none, Calls-log_block, Calls-trans, Calls-weaken}

balloc-Calls : (v : Volume) → OnOk (λ (p : ℕ × Volume). Calls 2 v p.1) (balloc v)
unfolding bzero
balloc-Calls v = elim (balloc_lem v) [
  | inl (e, all) ↦ rw e tt
  | inr (b, e, lo, small, free, first) ↦
      let bb = bitmap_block v.sb b in
      let v1 = log_block bb (mark (b % bits_per_block) (v.blocks bb)) v in
      let v2 = log_block b (λ i. 0) v1 in
      rw e
        (Calls-trans 1 1 2 v v1 v2 (Calls-log_block bb _ v) (Calls-log_block b _ v1) (omega arith))
]

alloc_unless-Calls :
    (addr : ℕ) (v : Volume) → OnOk (λ (p : ℕ × Volume). Calls 2 v p.1) (alloc_unless addr v)
alloc_unless-Calls addr v = elim (Bool-cases (addr == 0)) [
  | inl none_there ↦ rw none_there (balloc-Calls v)
  | inr there ↦ rw there (Calls-none 2 v)
]

abbrev Mapping : ℕ → Volume → ℕ × Inode × Volume → Type 0
Mapping m v (addr, ip, v') = Calls m v v'

indirect_entry-Calls :
    (a i : ℕ) (ip : Inode) (v : Volume) → OnOk (Mapping 3 v) (indirect_entry a i ip v)
unfolding indirect_entry
indirect_entry-Calls a i ip v = elim (Bool-cases (word_at (v.blocks a) (4 * i) == 0)) [
  | inl hole_ ↦ rw hole_ (
      OnOk-then (λ (p : ℕ × Volume). Calls 2 v p.1) (Mapping 3 v) (balloc v) _ (balloc-Calls v)
        (λ p h. Calls-trans 2 1 3 v p.1 _ h (Calls-log_block a _ p.1) (omega arith)))
  | inr there ↦ rw there (Calls-none 3 v)
]

pub bmap-Calls : (ip : Inode) (bn : ℕ) (v : Volume) → OnOk (Mapping 5 v) (bmap ip bn v)
unfolding bmap
bmap-Calls ip bn v = elim (Bool-cases (ltb bn n_direct)) [
  | inl direct ↦ rw direct (
      OnOk-then (λ (p : ℕ × Volume). Calls 2 v p.1) (Mapping 5 v) (alloc_unless (ip.addrs bn) v) _
        (alloc_unless-Calls (ip.addrs bn) v) (λ p h. Calls-weaken 2 5 v p.1 h (omega arith)))
  | inr past ↦ elim (Bool-cases (ltb (bn - n_direct) n_indirect)) [
    | inr out ↦ rw (past, out) tt
    | inl inside ↦
        rw (past, inside)
          (OnOk-then (λ (p : ℕ × Volume). Calls 2 v p.1) (Mapping 5 v)
            (alloc_unless (ip.addrs n_direct) v) _ (alloc_unless-Calls (ip.addrs n_direct) v)
            (λ p h.
              more p h
                (indirect_entry p.0 (bn - n_direct)
                  (record ip { addrs = update ip.addrs n_direct p.0 }) p.1)
                (indirect_entry-Calls p.0 (bn - n_direct) _ p.1)))
  ]
]
  where
    more :
        (p : ℕ × Volume)
        → Calls 2 v p.1
        → (r : Outcome (ℕ × Inode × Volume)) → OnOk (Mapping 3 p.1) r
        → OnOk (Mapping 5 v) r
    more p h panic h' = tt
    more p h (ok (addr, ip', v')) h' = Calls-trans 2 3 5 v p.1 v' h h' (omega arith)

-- The blocks that `n - tot` bytes at `off` touch, with six calls for each.
abbrev pub round_calls : ℕ → ℕ → ℕ → ℕ
round_calls tot off n =
    if ltb tot n then 6 * ((off + (n - tot) + 511) / block_size - off / block_size) else 0

abbrev Writing : ℕ → Volume → ℕ × Inode × Volume → Type 0
Writing m v (off, ip, v') = Calls m v v'

round_calls-next :
    (tot off n m : ℕ)
    → tot < n
    → m ≡ min (n - tot) (block_size - off % block_size)
    → 6 + round_calls (tot + m) (off + m) n ≤ round_calls tot off n
round_calls-next tot off n m lt e =
    let t1 : ltb tot n ≡ true = ground arith in
    elim (dec_le (n - tot) (block_size - off % block_size)) [
      | yes last ↦
          let all : m ≡ n - tot = omega arith in
          let t2 : ltb (tot + m) n ≡ false = ground (arith, all) in rw (t1, t2) (omega arith)
      | no more ↦
          let block : m ≡ block_size - off % block_size = omega arith in
          let t2 : ltb (tot + m) n ≡ true = ground (arith, block) in
          rw (t1, t2) (omega (arith, block))
    ]

round-Calls :
    (b c : ℕ) (v v1 v2 : Volume) (r : Outcome (ℕ × Inode × Volume))
    → Calls 5 v v1
    → Calls 1 v1 v2
    → 6 + b ≤ c
    → OnOk (Writing b v2) r
    → OnOk (Writing c v) r
round-Calls b c v v1 v2 panic h one le h' = tt
round-Calls b c v v1 v2 (ok (off, ip, v')) h one le h' =
    Calls-trans 6 b c v v2 v' (Calls-trans 5 1 6 v v1 v2 h one (omega arith)) h' le

pub write_from-Calls :
    (fuel tot off n c : ℕ) (src : Buffer) (ip : Inode) (v : Volume)
    → round_calls tot off n ≤ c
    → OnOk (Writing c v) (write_from fuel tot off n src ip v)
unfolding write_from
write_from-Calls zero tot off n c src ip v le = tt
write_from-Calls (suc fuel) tot off n c src ip v le = elim (dec_lt tot n) [
  | no done ↦ let t : ltb tot n ≡ false = ground arith in rw t (Calls-none c v)
  | yes more ↦
      let t : ltb tot n ≡ true = ground arith in
      let m : ℕ = min (n - tot) (block_size - off % block_size) in
      let next = round_calls-next tot off n m more refl in
      rw t (
        OnOk-then (Mapping 5 v) (Writing c v) (bmap ip (off / block_size) v) _
          (bmap-Calls ip (off / block_size) v)
          (λ (addr, ip', v') h.
            let d = pasted (off % block_size) m (λ i. src (tot + i)) (v'.blocks addr) in
            let v2 = log_block addr d v' in
            round-Calls (round_calls (tot + m) (off + m) n) c v v' v2
              (write_from fuel (tot + m) (off + m) n src ip' v2) h (Calls-log_block addr d v')
              (omega (arith, next, le))
              (write_from-Calls fuel (tot + m) (off + m) n (round_calls (tot + m) (off + m) n) src
                ip' v2 (omega arith))))
]

grow-Calls : (n off : ℕ) (ip : Inode) (v : Volume) → Calls 1 v (grow n off ip v).1
unfolding grow iupdate
grow-Calls n off ip v = elim (Bool-cases (ltb 0 n && ltb ip.size off)) [
  | inl grows ↦ rw grows (Calls-log_block (inode_block v.sb ip.inum) _ v)
  | inr keeps ↦ rw keeps (Calls-none 1 v)
]

-- The calls of log_write for `n` bytes at `off`: six for each block, and one for the inode.
abbrev pub write_calls : ℕ → ℕ → ℕ
write_calls off n = 6 * ((off + n + 511) / block_size - off / block_size) + 1

abbrev pub Ended : ℕ → Volume → Option ℕ × Inode × Volume → Type 0
Ended m v (r, ip, v') = Calls m v v'

pub writei-Calls :
    (k : Devsw) (ip : Inode) (src : Buffer) (off n : ℕ) (v : Volume)
    → OnOk (Ended (write_calls off n) v) (writei k ip src off n v)
unfolding writei
writei-Calls k ip src off n v = elim (Bool-cases (ip.type == t_dev)) [
  | inl device ↦ rw device (elim (Bool-cases (leb ndev ip.major)) [
    | inl bad ↦ rw bad (Calls-none _ v)
    | inr known ↦ rw known (Calls-none _ v)
  ])
  | inr file ↦ elim (Bool-cases (ltb ip.size off || ltb (add32 off n) off)) [
    | inl out ↦ rw (file, out) (Calls-none _ v)
    | inr inside ↦ elim (Bool-cases (ltb (max_file * block_size) (add32 off n))) [
      | inl large ↦ rw (file, inside, large) (Calls-none _ v)
      | inr fits ↦
          rw (file, inside, fits)
            (OnOk-then (Writing (6 * ((off + n + 511) / block_size - off / block_size)) v)
              (Ended (write_calls off n) v) (write_from (suc n) 0 off n src ip v) _
              (write_from-Calls (suc n) 0 off n _ src ip v (all_calls off n))
              (λ (off', ip', v') h.
                Calls-trans _ 1 (write_calls off n) v v' (grow n off' ip' v').1 h
                  (grow-Calls n off' ip' v') (omega arith)))
    ]
  ]
]
  where
    all_calls :
        (off n : ℕ) → round_calls 0 off n ≤ 6 * ((off + n + 511) / block_size - off / block_size)
    all_calls off n = ground arith
