-- ===== src/Bcache/Sharing.antt =====
-- bio.c: what processes do with the cache, and what it keeps to between them.
use mathlib.Core.Path.{subst}
use native.Mathlib.Decide.{ℕ_discrete}
use schoolstuff.Base.{
  ℕ, ◌+◌, ◌-◌, ◌<◌, ◌≡◌, ◌≢◌, refl, true, false, List, update, ne→==, ==_refl, ◌∙◌, sym, ap,
  if◌then◌else◌,
}
use schoolstuff.Base.Outcome.{Outcome, ok, ◌>>=◌}
use schoolstuff.Log.{Block}
use schoolstuff.Bcache.{Buf, Bcache, nbuf, set_buf, bget, bread_locked, bwrite, brelse}
use schoolstuff.Bcache.Scan.{Full}

-- The cache, and how many processes have each buffer from bget and still wait for its lock.
pub record World : Type 0 where
  pub cache : Bcache
  pub waiting : ℕ → ℕ

-- A process calls bget, gets the lock in bread, writes through, leaves a change to the log, calls brelse.
pub data Event : Type 0 where
  get : ℕ → Event
  lock : ℕ → Event
  write : ℕ → Block → Event
  mark : ℕ → Block → Event
  release : ℕ → Event

-- The process changes the bytes, and log_write sets B_DIRTY.
abbrev pub fill : ℕ → Block → Bcache → Bcache
fill b d s = set_buf b (record (s.buf b) { bytes = d }) s

abbrev pub fill_dirty : ℕ → Block → Bcache → Bcache
fill_dirty b d s = set_buf b (record (s.buf b) { bytes = d; is_dirty = true }) s

-- A process waits for what bget has returned to it, and keeps to the lock after.
abbrev pub Allowed : ℕ → World → Event → Type 0
Allowed disksize w (get n) = n < disksize
Allowed disksize w (lock b) = (w.waiting b ≢ 0) × ((w.cache.buf b).locked ≡ false)
Allowed disksize w (write b d) = (w.cache.buf b).locked ≡ true
Allowed disksize w (mark b d) = (w.cache.buf b).locked ≡ true
Allowed disksize w (release b) = (w.cache.buf b).locked ≡ true

unfoldable pub perform : ℕ → Event → World → Outcome World
perform disksize (get n) w = do
  (b, s) ← bget 1 n w.cache
  ok (record { cache = s; waiting = update w.waiting b (w.waiting b + 1) })
perform disksize (lock b) w = do
  s ← bread_locked disksize b w.cache
  ok (record { cache = s; waiting = update w.waiting b (w.waiting b - 1) })
perform disksize (write b d) w = do
  s ← bwrite disksize b (fill b d w.cache)
  ok (record w { cache = s })
perform disksize (mark b d) w = ok (record w { cache = fill_dirty b d w.cache })
perform disksize (release b) w = do s ← brelse b w.cache; ok (record w { cache = s })

-- The blocks as the processes see them: a write counts at once.
abbrev pub after : Event → World → (ℕ → Block) → ℕ → Block
after (write b d) w v = update v (w.cache.buf b).blockno d
after (mark b d) w v = update v (w.cache.buf b).blockno d
after (get n) w v = v
after (lock b) w v = v
after (release b) w v = v

-- What holds of each buffer, with the number of processes that wait for it.
pub record Good (disksize waiting : ℕ) (v : Buf) : Type 0 where
  pub counted : v.refcnt ≡ waiting + (if v.locked then 1 else 0)
  pub live : v.refcnt ≢ 0 → (v.dev ≡ 1) × (v.blockno < disksize)
  pub locked_valid : v.locked ≡ true → v.is_valid ≡ true
  pub dirty_valid : v.is_dirty ≡ true → v.is_valid ≡ true
  pub valid_dev : v.is_valid ≡ true → v.dev ≡ 1

pub record Inv (disksize : ℕ) (w : World) (v : ℕ → Block) : Type 0 where
  pub list : (xs : List ℕ) × Full w.cache xs
  pub good : (b : ℕ) → Good disksize (w.waiting b) (w.cache.buf b)
  pub inside : (b : ℕ) → (w.cache.buf b).dev ≡ 1 → b < nbuf
  pub unique :
      (b c : ℕ)
      → b ≢ c
      → (w.cache.buf b).dev ≡ 1
      → (w.cache.buf c).dev ≡ 1
      → (w.cache.buf b).blockno ≢ (w.cache.buf c).blockno
  pub cached :
      (b : ℕ) → (w.cache.buf b).is_valid ≡ true → (w.cache.buf b).bytes ≡ v (w.cache.buf b).blockno
  pub on_disk :
      (n : ℕ)
      → ((b : ℕ) → (w.cache.buf b).is_dirty ≡ true → (w.cache.buf b).blockno ≢ n)
      → w.cache.disk n ≡ v n

-- One buffer changes, and the disk with it.
module _ (disksize : ℕ) (w : World) (v : ℕ → Block) (inv : Inv disksize w v) (b : ℕ) (nv : Buf)
    (waiting' : ℕ → ℕ) (disk' v' : ℕ → Block)
    (same_waiting : (c : ℕ) → b ≢ c → waiting' c ≡ w.waiting c)
    (good_b : Good disksize (waiting' b) nv) (inside_b : nv.dev ≡ 1 → b < nbuf)
    (unique_b : nv.dev ≡ 1
      → (c : ℕ) → b ≢ c
      → (w.cache.buf c).dev ≡ 1
      → nv.blockno ≢ (w.cache.buf c).blockno)
    (own : nv.is_valid ≡ true → nv.bytes ≡ v' nv.blockno)
    (others : (c : ℕ)
      → b ≢ c
      → (w.cache.buf c).is_valid ≡ true
      → v' (w.cache.buf c).blockno ≡ v (w.cache.buf c).blockno)
    (disk : (n : ℕ)
      → (nv.is_dirty ≡ true → nv.blockno ≢ n)
      → ((c : ℕ) → b ≢ c → (w.cache.buf c).is_dirty ≡ true → (w.cache.buf c).blockno ≢ n)
      → disk' n ≡ v' n) where
  abbrev pub changed : Bcache
  changed = record (w.cache) { buf = update w.cache.buf b nv; disk = disk' }

  at_b : changed.buf b ≡ nv
  at_b = rw (==_refl b) refl

  at_other : (c : ℕ) → b ≢ c → changed.buf c ≡ w.cache.buf c
  at_other c ne = rw (ne→== b c ne) refl

  -- A property of each buffer.
  each :
      (P : ℕ → Buf → Type 0)
      → P b nv
      → ((c : ℕ) → b ≢ c → P c (w.cache.buf c))
      → (c : ℕ) → P c (changed.buf c)
  each P here_ there c = elim (ℕ_discrete b c) [
    | yes e ↦ subst (λ k. P k (changed.buf k)) e (subst (P b) (sym at_b) here_)
    | no ne ↦ subst (P c) (sym (at_other c ne)) (there c ne)
  ]

  pub changed-Inv : Inv disksize (record { cache = changed; waiting = waiting' }) v'
  changed-Inv = record {
    list =
        let (xs, full) = inv.list in
        (
          xs,
          record {
            ring = record { links = full.ring.links; apart = full.ring.apart };
            size = full.size;
            all = full.all;
            only = full.only;
          },
        );
    good =
        each (λ c k. Good disksize (waiting' c) k) good_b
          (λ c ne.
            subst (λ x. Good disksize x (w.cache.buf c)) (sym (same_waiting c ne)) (inv.good c));
    inside = each (λ c k. k.dev ≡ 1 → c < nbuf) inside_b (λ c ne. inv.inside c);
    unique =
        each
          (λ c k.
            (e : ℕ)
            → c ≢ e
            → k.dev ≡ 1
            → (changed.buf e).dev ≡ 1
            → k.blockno ≢ (changed.buf e).blockno)
          (λ e ne dev dev'.
            let same = at_other e ne in
            subst (λ k. nv.blockno ≢ k.blockno) (sym same)
              (unique_b dev e ne (ap (λ k. k.dev) (sym same) ∙ dev')))
          (λ c ne.
            each
              (λ e k.
                c ≢ e → (w.cache.buf c).dev ≡ 1 → k.dev ≡ 1 → (w.cache.buf c).blockno ≢ k.blockno)
              (λ ne' dev dev' eq. unique_b dev' c ne dev (sym eq))
              (λ e ne2 ne'. inv.unique c e ne'));
    cached =
        each (λ c k. k.is_valid ≡ true → k.bytes ≡ v' k.blockno) own
          (λ c ne valid. inv.cached c valid ∙ sym (others c ne valid));
    on_disk = λ n clean.
        disk n
          (λ dirty. subst (λ k. k.blockno ≢ n) at_b (clean b (ap (λ k. k.is_dirty) at_b ∙ dirty)))
          (λ c ne dirty.
            let same = at_other c ne in
            subst (λ k. k.blockno ≢ n) same (clean c (ap (λ k. k.is_dirty) same ∙ dirty)));
  }
