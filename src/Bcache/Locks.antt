-- ===== src/Bcache/Locks.antt =====
-- bio.c: bread once it has the lock of a buffer, and brelse.
use mathlib.Core.Path.{subst, fun_ext}
use native.Mathlib.Decide.{ℕ_discrete}
use schoolstuff.Base.{
  ℕ, ◌+◌, ◌-◌, ◌<◌, ◌≡◌, ◌≢◌, refl, true, false, List, ◌∷◌, ◌++◌, arith, ◌==◌, leb, update, inl,
  inr, Bool-cases, ne→==, ==_refl, ◌∙◌, sym, ap, length-append, length,
}
use schoolstuff.Base.Outcome.{ok}
use schoolstuff.Log.{Block}
use schoolstuff.Kalloc.FreeList.{has}
use schoolstuff.Bcache.{Buf, Bcache, nbuf, set_buf, iderw, bread_locked, insert_first, unlink}
use schoolstuff.Bcache.Ring.{has-append}
use schoolstuff.Bcache.Moves.{move-Ring}
use schoolstuff.Bcache.Scan.{Full}
use schoolstuff.Bcache.Sharing.{World, Inv, changed-Inv}
use schoolstuff.Bcache.Changes.{locked-live, other_block}

pub update_twice :
    {A : Type 0} (f : ℕ → A) (b : ℕ) (x y : A) → update (update f b x) b y ≡ update f b y
update_twice f b x y =
    fun_ext
      (λ c. elim (Bool-cases (b == c)) [ inl same ↦ rw same refl | inr other ↦ rw other refl ])

module _ (disksize : ℕ) (w : World) (v : ℕ → Block) (inv : Inv disksize w v) (b : ℕ) where
  abbrev v0 : Buf
  v0 = w.cache.buf b

  -- A process gets the lock of a buffer that has the block.
  abbrev pub taken : World
  taken = record {
    cache = set_buf b (record v0 { locked = true }) w.cache;
    waiting = update w.waiting b (w.waiting b - 1);
  }

  -- A process gets it, and iderw reads the block.
  abbrev pub loaded : World
  loaded = record {
    cache =
        set_buf b (record v0 { locked = true; bytes = w.cache.disk v0.blockno; is_valid = true })
          w.cache;
    waiting = update w.waiting b (w.waiting b - 1);
  }

  module _ (waits : w.waiting b ≢ 0) (unlocked : v0.locked ≡ false) where
    count : v0.refcnt ≡ w.waiting b
    count = rw unlocked at ((inv.good b).counted) ∙ (omega arith)

    alive : (v0.dev ≡ 1) × (v0.blockno < disksize)
    alive = let n = count in (inv.good b).live (omega (arith, n))

    same_disk :
        (n : ℕ)
        → (v0.is_dirty ≡ true → v0.blockno ≢ n)
        → ((c : ℕ) → b ≢ c → (w.cache.buf c).is_dirty ≡ true → (w.cache.buf c).blockno ≢ n)
        → w.cache.disk n ≡ v n
    same_disk n own rest = inv.on_disk n (λ c dirty. elim (ℕ_discrete b c) [
      | yes e ↦
          subst (λ k. (w.cache.buf k).blockno ≢ n) e
            (own (ap (λ k. (w.cache.buf k).is_dirty) e ∙ dirty))
      | no ne ↦ rest c ne dirty
    ])

    pub taken-Inv : v0.is_valid ≡ true → Inv disksize taken v
    taken-Inv valid =
        let g = inv.good b in
        let n = count in
        changed-Inv disksize w v inv b (record v0 { locked = true })
          (update w.waiting b (w.waiting b - 1)) w.cache.disk v (λ c ne. rw (ne→== b c ne) refl)
          (rw (==_refl b) (record {
            counted = omega (arith, n);
            live = g.live;
            locked_valid = λ h. valid;
            dirty_valid = g.dirty_valid;
            valid_dev = g.valid_dev;
          }))
          (inv.inside b) (λ dev1 c ne dev2. inv.unique b c ne dev1 dev2) (inv.cached b)
          (λ c ne h. refl) same_disk

    -- What iderw reads is the block as it was last written.
    pub disk_current : v0.is_dirty ≡ false → w.cache.disk v0.blockno ≡ v v0.blockno
    disk_current clean = inv.on_disk v0.blockno (λ c dirty. elim (ℕ_discrete b c) [
      | yes e ↦
          let clash : true ≡ false =
            sym dirty ∙ ap (λ k. (w.cache.buf k).is_dirty) (sym e) ∙ clean in
          absurd (ground arith)
      | no ne ↦
          λ e. other_block disksize w v inv b c ne alive.0 ((inv.good c).dirty_valid dirty) (sym e)
    ])

    pub not_dirty : v0.is_valid ≡ false → v0.is_dirty ≡ false
    not_dirty invalid = elim (Bool-cases v0.is_dirty) [
      | inl dirty ↦
          let clash : true ≡ false = sym ((inv.good b).dirty_valid dirty) ∙ invalid in
          absurd (ground arith)
      | inr clean ↦ clean
    ]

    pub loaded-Inv : v0.is_valid ≡ false → Inv disksize loaded v
    loaded-Inv invalid =
        let g = inv.good b in
        let n = count in
        changed-Inv disksize w v inv b
          (record v0 { locked = true; bytes = w.cache.disk v0.blockno; is_valid = true })
          (update w.waiting b (w.waiting b - 1)) w.cache.disk v (λ c ne. rw (ne→== b c ne) refl)
          (rw (==_refl b) (record {
            counted = omega (arith, n);
            live = g.live;
            locked_valid = λ h. refl;
            dirty_valid = λ h. refl;
            valid_dev = λ h. alive.0;
          }))
          (inv.inside b) (λ dev1 c ne dev2. inv.unique b c ne dev1 dev2)
          (λ h. disk_current (not_dirty invalid)) (λ c ne h. refl) same_disk

    pub bread_locked-taken : v0.is_valid ≡ true → bread_locked disksize b w.cache ≡ ok taken.cache
    unfolding bread_locked
    bread_locked-taken valid = rw valid refl

    pub bread_locked-loaded :
        v0.is_valid ≡ false → bread_locked disksize b w.cache ≡ ok loaded.cache
    unfolding bread_locked iderw
    bread_locked-loaded invalid =
        let (dev, small) = alive in
        let dev1 : (v0.dev == 1) ≡ true = ground (arith, dev) in
        let low : leb disksize v0.blockno ≡ false = ground (arith, small) in
        rw (invalid, ==_refl b, not_dirty invalid, dev1, low)
          (ap (λ f. ok (record (w.cache) { buf = f })) (update_twice w.cache.buf b _ _))

  -- brelse, before it moves the buffer.
  abbrev pub let_go : Bcache
  let_go = set_buf b (record v0 { locked = false; refcnt = v0.refcnt - 1 }) w.cache

  module _ (locked : v0.locked ≡ true) where
    pub let_go-Inv : Inv disksize (record w { cache = let_go }) v
    let_go-Inv =
        let g = inv.good b in
        let (used, dev, small, valid) = locked-live disksize w v inv b locked in
        let count1 : v0.refcnt ≡ w.waiting b + 1 = rw locked at g.counted in
        changed-Inv disksize w v inv b (record v0 { locked = false; refcnt = v0.refcnt - 1 })
          w.waiting w.cache.disk v (λ c ne. refl)
          (record {
            counted = omega (arith, count1);
            live = λ h. (dev, small);
            locked_valid = λ h. valid;
            dirty_valid = g.dirty_valid;
            valid_dev = g.valid_dev;
          })
          (inv.inside b) (λ dev1 c ne dev2. inv.unique b c ne dev1 dev2) (inv.cached b)
          (λ c ne h. refl)
          (λ n own rest. inv.on_disk n (λ c dirty. elim (ℕ_discrete b c) [
            | yes e ↦
                subst (λ k. (w.cache.buf k).blockno ≢ n) e
                  (own (ap (λ k. (w.cache.buf k).is_dirty) e ∙ dirty))
            | no ne ↦ rest c ne dirty
          ]))

-- A buffer of the list moves to its front.
pub move-Full :
    (b : ℕ) (s : Bcache) (xs : List ℕ)
    → Full s xs
    → b < nbuf
    → (ys : List ℕ) × Full (insert_first b (unlink b s)) ys
move-Full b s xs full b_ok =
    let (ls, rs, e, ring) = move-Ring b s xs full.ring (full.all b b_ok) in
    let size = full.size in
    let l1 = length-append ls (b ∷ rs) in
    let l2 = length-append ls rs in
    let l3 = ap length e in
    let same = λ (c : ℕ). ap (has c) e in
    (
      b ∷ (ls ++ rs),
      record {
        ring = ring;
        size = omega (arith, size, l1, l2, l3);
        all = λ c h.
            let old = sym (same c) ∙ full.all c h in
            let h1 = has-append c ls (b ∷ rs) in
            let h2 = has-append c ls rs in ground (arith, old, h1, h2);
        only = λ c h. full.only c (
            same c
            ∙ (let h1 = has-append c ls (b ∷ rs) in
                let h2 = has-append c ls rs in ground (arith, h, h1, h2)));
      },
    )

pub moved-Inv :
    (disksize b : ℕ) (w : World) (v : ℕ → Block)
    → Inv disksize w v
    → b < nbuf
    → Inv disksize (record w { cache = insert_first b (unlink b w.cache) }) v
unfolding insert_first unlink
moved-Inv disksize b w v inv b_ok = record {
  list = let (xs, full) = inv.list in move-Full b w.cache xs full b_ok;
  good = inv.good;
  inside = inv.inside;
  unique = inv.unique;
  cached = inv.cached;
  on_disk = inv.on_disk;
}
