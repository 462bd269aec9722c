-- ===== src/Bcache/Changes.antt =====
-- bio.c: what bget, bwrite and a change to a buffer leave of what the cache keeps to.
use mathlib.Core.Path.{subst}
use native.Mathlib.Decide.{ℕ_discrete}
use schoolstuff.Base.{
  ℕ, ◌+◌, ◌<◌, ◌≡◌, ◌≢◌, refl, true, false, arith, ◌==◌, update, ne→==, ==_refl, ◌∙◌, sym, ap,
}
use schoolstuff.Log.{Block}
use schoolstuff.Bcache.{Bcache, nbuf, share, recycle}
use schoolstuff.Bcache.Sharing.{World, fill_dirty, Inv, changed-Inv}

module _ (disksize : ℕ) (w : World) (v : ℕ → Block) (inv : Inv disksize w v) where
  -- A locked buffer is one of a process, and valid.
  pub locked-live :
      (b : ℕ)
      → (w.cache.buf b).locked ≡ true
      → ((w.cache.buf b).refcnt ≢ 0)
        × ((w.cache.buf b).dev ≡ 1)
        × ((w.cache.buf b).blockno < disksize)
        × ((w.cache.buf b).is_valid ≡ true)
  locked-live b l =
      let g = inv.good b in
      let count : (w.cache.buf b).refcnt ≡ w.waiting b + 1 = rw l at g.counted in
      let used : (w.cache.buf b).refcnt ≢ 0 = omega (arith, count) in
      (used, (g.live used).0, (g.live used).1, g.locked_valid l)

  -- The other buffers hold other blocks.
  pub other_block :
      (b c : ℕ)
      → b ≢ c
      → (w.cache.buf b).dev ≡ 1
      → (w.cache.buf c).is_valid ≡ true
      → (w.cache.buf b).blockno ≢ (w.cache.buf c).blockno
  other_block b c ne dev valid = inv.unique b c ne dev ((inv.good c).valid_dev valid)

  pub share-Inv :
      (b : ℕ)
      → (w.cache.buf b).dev ≡ 1
      → (w.cache.buf b).blockno < disksize
      → Inv disksize
          (record { cache = share b w.cache; waiting = update w.waiting b (w.waiting b + 1) })
          v
  share-Inv b dev small =
      let g = inv.good b in
      changed-Inv disksize w v inv b
        (record (w.cache.buf b) { refcnt = (w.cache.buf b).refcnt + 1 })
        (update w.waiting b (w.waiting b + 1)) w.cache.disk v (λ c ne. rw (ne→== b c ne) refl)
        (rw (==_refl b) (record {
          counted = let n = g.counted in omega (arith, n);
          live = λ used. (dev, small);
          locked_valid = g.locked_valid;
          dirty_valid = g.dirty_valid;
          valid_dev = g.valid_dev;
        }))
        (inv.inside b) (λ dev1 c ne dev2. inv.unique b c ne dev1 dev2) (inv.cached b)
        (λ c ne valid. refl)
        (λ n own rest. inv.on_disk n (λ c dirty. elim (ℕ_discrete b c) [
          | yes e ↦
              subst (λ k. (w.cache.buf k).blockno ≢ n) e
                (own (ap (λ k. (w.cache.buf k).is_dirty) e ∙ dirty))
          | no ne ↦ rest c ne dirty
        ]))

  pub recycle-Inv :
      (b n : ℕ)
      → b < nbuf
      → n < disksize
      → (w.cache.buf b).refcnt ≡ 0
      → (w.cache.buf b).is_dirty ≡ false
      → ((c : ℕ) → (w.cache.buf c).dev ≡ 1 → (w.cache.buf c).blockno ≢ n)
      → Inv disksize
          (record { cache = recycle 1 n b w.cache; waiting = update w.waiting b (w.waiting b + 1) })
          v
  recycle-Inv b n b_ok n_ok idle clean missing =
      let g = inv.good b in
      let count = g.counted in
      let unlocked : (w.cache.buf b).locked ≡ false = ground (arith, count, idle) in
      let none_waits : w.waiting b ≡ 0 = omega (arith, count, idle) in
      changed-Inv disksize w v inv b
        (record (w.cache.buf b) {
          dev = 1;
          blockno = n;
          is_valid = false;
          is_dirty = false;
          refcnt = 1;
        })
        (update w.waiting b (w.waiting b + 1)) w.cache.disk v (λ c ne. rw (ne→== b c ne) refl)
        (rw (==_refl b) (record {
          counted = rw (unlocked, none_waits) refl;
          live = λ used. (refl, n_ok);
          locked_valid = λ l. let clash : true ≡ false = sym l ∙ unlocked in absurd (ground arith);
          dirty_valid = λ dirty. absurd (ground arith);
          valid_dev = λ valid. refl;
        }))
        (λ dev. b_ok) (λ dev1 c ne dev2 e. missing c dev2 (sym e)) (λ valid. absurd (ground arith))
        (λ c ne valid. refl)
        (λ m own rest. inv.on_disk m (λ c dirty. elim (ℕ_discrete b c) [
          | yes e ↦
              let clash : true ≡ false =
                sym dirty ∙ ap (λ k. (w.cache.buf k).is_dirty) (sym e) ∙ clean in
              absurd (ground arith)
          | no ne ↦ rest c ne dirty
        ]))

  pub mark-Inv :
      (b : ℕ) (d : Block)
      → (w.cache.buf b).locked ≡ true
      → Inv disksize
          (record w { cache = fill_dirty b d w.cache })
          (update v (w.cache.buf b).blockno d)
  mark-Inv b d l =
      let g = inv.good b in
      let (used, dev, small, valid) = locked-live b l in
      changed-Inv disksize w v inv b (record (w.cache.buf b) { bytes = d; is_dirty = true })
        w.waiting w.cache.disk (update v (w.cache.buf b).blockno d) (λ c ne. refl)
        (record {
          counted = g.counted;
          live = g.live;
          locked_valid = g.locked_valid;
          dirty_valid = λ h. valid;
          valid_dev = g.valid_dev;
        })
        (inv.inside b) (λ dev1 c ne dev2. inv.unique b c ne dev1 dev2)
        (λ h. rw (==_refl (w.cache.buf b).blockno) refl)
        (λ c ne h.
          rw (ne→== (w.cache.buf b).blockno (w.cache.buf c).blockno (other_block b c ne dev h))
            refl)
        (λ n own rest. rw (ne→== (w.cache.buf b).blockno n (own refl)) (
          inv.on_disk n (λ c dirty. elim (ℕ_discrete b c) [
            | yes e ↦ subst (λ k. (w.cache.buf k).blockno ≢ n) e (own refl)
            | no ne ↦ rest c ne dirty
          ])))

  -- What bwrite makes of the buffer and the disk.
  abbrev pub written : ℕ → Block → Bcache
  written b d = record (w.cache) {
    buf =
        update w.cache.buf b
          (record (w.cache.buf b) { bytes = d; is_dirty = false; is_valid = true });
    disk = update w.cache.disk (w.cache.buf b).blockno d;
  }

  pub written-Inv :
      (b : ℕ) (d : Block)
      → (w.cache.buf b).locked ≡ true
      → Inv disksize (record w { cache = written b d }) (update v (w.cache.buf b).blockno d)
  written-Inv b d l =
      let g = inv.good b in
      let (used, dev, small, valid) = locked-live b l in
      changed-Inv disksize w v inv b
        (record (w.cache.buf b) { bytes = d; is_dirty = false; is_valid = true }) w.waiting
        (update w.cache.disk (w.cache.buf b).blockno d) (update v (w.cache.buf b).blockno d)
        (λ c ne. refl)
        (record {
          counted = g.counted;
          live = g.live;
          locked_valid = λ h. refl;
          dirty_valid = λ h. refl;
          valid_dev = λ h. dev;
        })
        (inv.inside b) (λ dev1 c ne dev2. inv.unique b c ne dev1 dev2)
        (λ h. rw (==_refl (w.cache.buf b).blockno) refl)
        (λ c ne h.
          rw (ne→== (w.cache.buf b).blockno (w.cache.buf c).blockno (other_block b c ne dev h))
            refl)
        (λ n own rest. elim (ℕ_discrete (w.cache.buf b).blockno n) [
          | yes e ↦ let t : ((w.cache.buf b).blockno == n) ≡ true = ground (arith, e) in rw t refl
          | no ne ↦ rw (ne→== (w.cache.buf b).blockno n ne) (
              inv.on_disk n (λ c dirty. elim (ℕ_discrete b c) [
                | yes e ↦ subst (λ k. (w.cache.buf k).blockno ≢ n) e ne
                | no other ↦ rest c other dirty
              ]))
        ])
