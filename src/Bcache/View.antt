-- ===== src/Bcache/View.antt =====
-- bio.c: the cache behaves as the blocks themselves.
use schoolstuff.Base.{
  ℕ, ◌-◌, ◌<◌, ◌≡◌, ◌≢◌, ◌⊎◌, refl, true, false, List, arith, ◌==◌, leb, update, inl, inr,
  Bool-cases, ==_refl, ◌∙◌, sym, ap, Option, none, some,
}
use schoolstuff.Base.Outcome.{Outcome, ok, panic}
use schoolstuff.Log.{Block}
use schoolstuff.Bcache.{
  Buf, Bcache, nbuf, share, recycle, holds, is_recyclable, bget, iderw, bwrite, brelse, recycled,
  binit,
}
use schoolstuff.Bcache.Scan.{
  Full, first, reversed, lookup, bget-lookup, first-some, first-none, has-reversed,
}
use schoolstuff.Bcache.Sharing.{
  World, Event, get, lock, write, mark, release, fill, Allowed, perform, after, Inv,
}
use schoolstuff.Bcache.Changes.{locked-live, share-Inv, recycle-Inv, mark-Inv, written, written-Inv}
use schoolstuff.Bcache.Locks.{
  update_twice, taken-Inv, loaded-Inv, bread_locked-taken, bread_locked-loaded, let_go, let_go-Inv,
  moved-Inv,
}

pub option_cases : (o : Option ℕ) → (o ≡ none) ⊎ ((b : ℕ) × (o ≡ some b))
option_cases none = inl refl
option_cases (some b) = inr (b, refl)

-- bget panics: no buffer has the block, and every buffer has references or is dirty.
abbrev pub NoBuffer : Event → World → Type 0
NoBuffer (get n) w =
    (b : ℕ)
    → b < nbuf
    → (¬ (((w.cache.buf b).dev ≡ 1) × ((w.cache.buf b).blockno ≡ n)))
      × (((w.cache.buf b).refcnt ≢ 0) ⊎ ((w.cache.buf b).is_dirty ≡ true))
NoBuffer (lock b) w = ⊥
NoBuffer (write b d) w = ⊥
NoBuffer (mark b d) w = ⊥
NoBuffer (release b) w = ⊥

abbrev pub Performs : ℕ → Event → World → (ℕ → Block) → Type 0
Performs disksize e w v =
    ((w' : World) × (perform disksize e w ≡ ok w') × Inv disksize w' (after e w v))
    ⊎ ((perform disksize e w ≡ panic) × NoBuffer e w)

module _ (disksize : ℕ) (w : World) (v : ℕ → Block) (inv : Inv disksize w v) where
  pub holds-eq : (dev n : ℕ) (k : Buf) → holds dev n k ≡ true → (k.dev ≡ dev) × (k.blockno ≡ n)
  holds-eq dev n k h = (ground arith, ground arith)

  not_held : (n : ℕ) (k : Buf) → holds 1 n k ≡ false → k.dev ≡ 1 → k.blockno ≢ n
  not_held n k h dev e = ground arith

  unused-eq : (k : Buf) → is_recyclable k ≡ true → (k.refcnt ≡ 0) × (k.is_dirty ≡ false)
  unused-eq k h = (ground arith, ground arith)

  in_use-cases : (k : Buf) → is_recyclable k ≡ false → (k.refcnt ≢ 0) ⊎ (k.is_dirty ≡ true)
  in_use-cases k h = elim (Bool-cases k.is_dirty) [
    | inl dirty ↦ inr dirty
    | inr clean ↦
        inl
          (λ e. let clash : is_recyclable k ≡ true = rw (e, clean) refl in ground (arith, clash, h))
  ]

  get-cases :
      (n : ℕ) (xs : List ℕ)
      → n < disksize
      → Full w.cache xs
      → (r : Outcome (ℕ × Bcache)) → bget 1 n w.cache ≡ r
      → r ≡ lookup 1 n w.cache xs (first (holds 1 n) w.cache.buf xs)
      → Performs disksize (get n) w v
  unfolding perform
  get-cases n xs n_ok full r e0 e1 = elim (option_cases (first (holds 1 n) w.cache.buf xs)) [
    | inr (b, hit) ↦
        let (there, same) = first-some (holds 1 n) w.cache.buf xs b hit in
        let (dev, block) = holds-eq 1 n (w.cache.buf b) same in
        let run : bget 1 n w.cache ≡ ok (b, share b w.cache) =
          e0 ∙ e1 ∙ ap (lookup 1 n w.cache xs) hit in
        inl (_, rw run refl, share-Inv disksize w v inv b dev (omega (arith, block)))
    | inl miss ↦
        let missing : (c : ℕ) → (w.cache.buf c).dev ≡ 1 → (w.cache.buf c).blockno ≢ n = λ c dev.
          not_held n (w.cache.buf c)
            (first-none (holds 1 n) w.cache.buf xs miss c (full.all c (inv.inside c dev))) dev in
        elim (option_cases (first is_recyclable w.cache.buf (reversed xs))) [
          | inr (b, free) ↦
              let (there, idle) = first-some is_recyclable w.cache.buf (reversed xs) b free in
              let (zero_refs, clean) = unused-eq (w.cache.buf b) idle in
              let b_ok = full.only b (sym (has-reversed b xs) ∙ there) in
              let run : bget 1 n w.cache ≡ ok (b, recycle 1 n b w.cache) =
                e0 ∙ e1 ∙ ap (lookup 1 n w.cache xs) miss ∙ ap (recycled 1 n w.cache) free in
              inl
                (_, rw run refl, recycle-Inv disksize w v inv b n b_ok n_ok zero_refs clean missing)
          | inl busy ↦
              let run : bget 1 n w.cache ≡ panic =
                e0 ∙ e1 ∙ ap (lookup 1 n w.cache xs) miss ∙ ap (recycled 1 n w.cache) busy in
              inr (
                rw run refl,
                λ c h. (
                  (λ (dev, block). missing c dev block),
                  in_use-cases (w.cache.buf c) (
                      first-none is_recyclable w.cache.buf (reversed xs) busy c
                        (has-reversed c xs ∙ full.all c h)),
                ),
              )
        ]
  ]

  bwrite-written :
      (b : ℕ) (d : Block)
      → (w.cache.buf b).locked ≡ true
      → bwrite disksize b (fill b d w.cache) ≡ ok (written disksize w v inv b d)
  unfolding bwrite iderw
  bwrite-written b d l =
      let (used, dev, small, valid) = locked-live disksize w v inv b l in
      let dev1 : ((w.cache.buf b).dev == 1) ≡ true = ground (arith, dev) in
      let low : leb disksize (w.cache.buf b).blockno ≡ false = ground (arith, small) in
      rw (==_refl b, l, valid, dev1, low)
        (ap
          (λ f.
            ok (record (w.cache) { buf = f; disk = update w.cache.disk (w.cache.buf b).blockno d }))
          (update_twice (update w.cache.buf b _) b _ _ ∙ update_twice w.cache.buf b _ _))

  release-cases : (b : ℕ) → (w.cache.buf b).locked ≡ true → Performs disksize (release b) w v
  unfolding perform brelse
  release-cases b l =
      let (used, dev, small, valid) = locked-live disksize w v inv b l in
      let still = let_go-Inv disksize w v inv b l in
      elim (Bool-cases ((w.cache.buf b).refcnt - 1 == 0)) [
        | inl last ↦ inl (
          _,
          rw (l, last) refl,
          moved-Inv disksize b (record w { cache = let_go disksize w v inv b }) v still
              (inv.inside b dev),
        )
        | inr shared ↦ inl (_, rw (l, shared) refl, still)
      ]

-- Whatever a process may do next with a cache that keeps to its invariant runs without a panic, unless it is a
-- bget of a block that no buffer holds while every buffer has references or is dirty. The invariant holds
-- afterwards: no block has two buffers, and the valid buffers, with the disk for the blocks that are in no dirty
-- one, hold the blocks as they were last written.
pub perform-Inv :
    (disksize : ℕ) (e : Event) (w : World) (v : ℕ → Block)
    → Inv disksize w v
    → Allowed disksize w e
    → Performs disksize e w v
unfolding perform
perform-Inv disksize (get n) w v inv n_ok =
    let (xs, full) = inv.list in
    get-cases disksize w v inv n xs n_ok full (bget 1 n w.cache) refl
      (bget-lookup 1 n w.cache xs full)
perform-Inv disksize (lock b) w v inv (waits, unlocked) =
    elim (Bool-cases (w.cache.buf b).is_valid) [
      | inl valid ↦ inl (
        _,
        rw (bread_locked-taken disksize w v inv b waits unlocked valid) refl,
        taken-Inv disksize w v inv b waits unlocked valid,
      )
      | inr invalid ↦ inl (
        _,
        rw (bread_locked-loaded disksize w v inv b waits unlocked invalid) refl,
        loaded-Inv disksize w v inv b waits unlocked invalid,
      )
    ]
perform-Inv disksize (write b d) w v inv l =
    inl (_, rw (bwrite-written disksize w v inv b d l) refl, written-Inv disksize w v inv b d l)
perform-Inv disksize (mark b d) w v inv l = inl (_, refl, mark-Inv disksize w v inv b d l)
perform-Inv disksize (release b) w v inv l = release-cases disksize w v inv b l

-- The cache after binit, and what any order of the processes' calls makes of it and of the blocks.
abbrev pub empty_buf : Buf
empty_buf = record {
  is_valid = false;
  is_dirty = false;
  dev = 0;
  blockno = 0;
  locked = false;
  refcnt = 0;
  bytes = λ i. 0;
}

abbrev pub booted : (ℕ → Block) → World
booted disk = record {
  cache = binit (record { buf = λ b. empty_buf; prev = λ b. 0; next = λ b. 0; disk = disk });
  waiting = λ b. 0;
}

pub data Reach (disksize : ℕ) (disk : ℕ → Block) : World → (ℕ → Block) → Type 0 where
  boots : Reach disksize disk (booted disk) disk
  calls :
      (w w' : World) (v : ℕ → Block) (e : Event)
      → Reach disksize disk w v
      → Allowed disksize w e
      → perform disksize e w ≡ ok w'
      → Reach disksize disk w' (after e w v)
