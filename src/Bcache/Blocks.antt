-- ===== src/Bcache/Blocks.antt =====
-- bio.c: from binit on, bread returns a block as it was last written.
use mathlib.Core.Path.{subst}
use schoolstuff.Base.{
  ℕ, zero, suc, ◌+◌, ◌<◌, ◌≡◌, ◌≢◌, refl, true, false, [], arith, update, inl, inr, Bool-cases,
  ==_refl, ◌∙◌, sym, ap,
}
use schoolstuff.Base.Outcome.{ok, panic, ◌>>=◌}
use schoolstuff.Log.{Block}
use schoolstuff.Kalloc.FreeList.{has}
use schoolstuff.Bcache.{
  insert_all, Bcache, nbuf, holds, is_recyclable, bget, insert_first, recycled, binit,
}
use schoolstuff.Bcache.Moves.{binit-Ring, pushed}
use schoolstuff.Bcache.Scan.{Full, first, reversed, lookup, bget-lookup, first-some}
use schoolstuff.Bcache.Sharing.{World, get, lock, Allowed, perform, after, Good, Inv}
use schoolstuff.Bcache.Locks.{
  disk_current, not_dirty, taken, loaded, bread_locked-taken, bread_locked-loaded,
}
use schoolstuff.Bcache.View.{
  option_cases, holds-eq, perform-Inv, empty_buf, booted, Reach, boots, calls,
}

insert_all-buf :
    (n b : ℕ) (s : Bcache) → ((insert_all n b s).buf ≡ s.buf) × ((insert_all n b s).disk ≡ s.disk)
unfolding insert_all insert_first
insert_all-buf zero b s = (refl, refl)
insert_all-buf (suc n) b s = insert_all-buf n (b + 1) (insert_first b s)

booted-buf :
    (disk : ℕ → Block)
    → ((booted disk).cache.buf ≡ (λ b. empty_buf)) × ((booted disk).cache.disk ≡ disk)
unfolding binit
booted-buf disk = insert_all-buf nbuf 0 _

has-all : (b : ℕ) → b < nbuf → has b (pushed nbuf 0 []) ≡ true
has-all b h = ground arith

has-only : (b : ℕ) → has b (pushed nbuf 0 []) ≡ true → b < nbuf
has-only b h = ground arith

pub booted-Full : (disk : ℕ → Block) → Full (booted disk).cache (pushed nbuf 0 [])
booted-Full disk = record { ring = binit-Ring _; size = refl; all = has-all; only = has-only }

pub booted-Inv : (disksize : ℕ) (disk : ℕ → Block) → Inv disksize (booted disk) disk
booted-Inv disksize disk =
    let (bufs, blocks) = booted-buf disk in
    let empty : (b : ℕ) → (booted disk).cache.buf b ≡ empty_buf = λ b. ap (λ f. f b) bufs in
    record {
      list = (pushed nbuf 0 [], booted-Full disk);
      good = λ b. subst (Good disksize 0) (sym (empty b)) (record {
        counted = refl;
        live = λ used. absurd (used refl);
        locked_valid = λ h. absurd (ground arith);
        dirty_valid = λ h. absurd (ground arith);
        valid_dev = λ h. absurd (ground arith);
      });
      inside =
          λ b h. let e : 0 ≡ 1 = ap (λ k. k.dev) (sym (empty b)) ∙ h in absurd (omega (arith, e));
      unique = λ b c ne h h'.
          let e : 0 ≡ 1 = ap (λ k. k.dev) (sym (empty b)) ∙ h in absurd (omega (arith, e));
      cached = λ b h.
          let e : false ≡ true = ap (λ k. k.is_valid) (sym (empty b)) ∙ h in absurd (ground arith);
      on_disk = λ n clean. ap (λ f. f n) blocks;
    }

ok_eq : {w w' : World} → ok w ≡ ok w' → w ≡ w'
ok_eq {w} e = ap (λ r. elim r [ panic ↦ w | ok x ↦ x ]) e

pub Reach-Inv :
    (disksize : ℕ) (disk : ℕ → Block) (w : World) (v : ℕ → Block)
    → Reach disksize disk w v
    → Inv disksize w v
Reach-Inv disksize disk w v boots = booted-Inv disksize disk
Reach-Inv disksize disk w v (calls w0 w1 v0 e before may run) =
    elim (perform-Inv disksize e w0 v0 (Reach-Inv disksize disk w0 v0 before) may) [
      | inl (w2, run2, inv2) ↦
          subst (λ x. Inv disksize x (after e w0 v0)) (ok_eq (sym run2 ∙ run)) inv2
      | inr (stops, none_left) ↦
          let clash : panic ≡ ok w1 = sym stops ∙ run in absurd (ground arith)
    ]

-- After binit and any sequence of calls of the processes, each allowed and none of which panics, a process that has
-- a buffer from bget and gets its lock has the block's bytes in it as they were last written, by bwrite or to a
-- buffer left dirty for the log, or else as they were on the disk at the start. This neither panics nor changes
-- which block the buffer is for.
pub lock-reads :
    (disksize : ℕ) (disk : ℕ → Block) (w : World) (v : ℕ → Block) (b : ℕ)
    → Reach disksize disk w v
    → Allowed disksize w (lock b)
    → (w' : World) × (perform disksize (lock b) w ≡ ok w')
      × ((w'.cache.buf b).locked ≡ true)
      × ((w'.cache.buf b).blockno ≡ (w.cache.buf b).blockno)
      × ((w'.cache.buf b).bytes ≡ v (w.cache.buf b).blockno)
unfolding perform
lock-reads disksize disk w v b reach (waits, unlocked) =
    let inv = Reach-Inv disksize disk w v reach in
    elim (Bool-cases (w.cache.buf b).is_valid) [
      | inl valid ↦ (
        taken disksize w v inv b,
        rw (bread_locked-taken disksize w v inv b waits unlocked valid) refl,
        rw (==_refl b) refl,
        rw (==_refl b) refl,
        rw (==_refl b) (inv.cached b valid),
      )
      | inr invalid ↦ (
        loaded disksize w v inv b,
        rw (bread_locked-loaded disksize w v inv b waits unlocked invalid) refl,
        rw (==_refl b) refl,
        rw (==_refl b) refl,
        rw (==_refl b) (
            disk_current disksize w v inv b waits unlocked
              (not_dirty disksize w v inv b waits unlocked invalid)),
      )
    ]

pair_eq : {x y : ℕ × Bcache} → ok x ≡ ok y → x ≡ y
pair_eq {x} e = ap (λ r. elim r [ panic ↦ x | ok p ↦ p ]) e

-- The buffer that bget returns is for the block that was asked for.
ForBlock : ℕ → ℕ × Bcache → Type 0
ForBlock n (b, s) = (s.buf b).blockno ≡ n

bget-ForBlock :
    (disksize n : ℕ) (w : World) (v : ℕ → Block) (r : ℕ × Bcache)
    → Inv disksize w v
    → bget 1 n w.cache ≡ ok r
    → ForBlock n r
unfolding ForBlock
bget-ForBlock disksize n w v r inv run =
    let (xs, full) = inv.list in
    let looked = sym run ∙ bget-lookup 1 n w.cache xs full in
    elim (option_cases (first (holds 1 n) w.cache.buf xs)) [
      | inr (b, hit) ↦
          let (there, same) = first-some (holds 1 n) w.cache.buf xs b hit in
          let e = pair_eq (looked ∙ ap (lookup 1 n w.cache xs) hit) in
          subst (ForBlock n) (sym e)
            (rw (==_refl b) (holds-eq disksize w v inv 1 n (w.cache.buf b) same).1)
      | inl miss ↦ elim (option_cases (first is_recyclable w.cache.buf (reversed xs))) [
        | inr (b, free) ↦
            let e =
              pair_eq (looked ∙ ap (lookup 1 n w.cache xs) miss ∙ ap (recycled 1 n w.cache) free) in
            subst (ForBlock n) (sym e) (rw (==_refl b) refl)
        | inl busy ↦
            let clash : ok r ≡ panic =
              looked ∙ ap (lookup 1 n w.cache xs) miss ∙ ap (recycled 1 n w.cache) busy in
            absurd (ground arith)
      ]
    ]

get-got :
    (disksize n : ℕ) (w : World) (b : ℕ) (s : Bcache)
    → bget 1 n w.cache ≡ ok (b, s)
    → perform disksize (get n) w
      ≡ ok (record { cache = s; waiting = update w.waiting b (w.waiting b + 1) })
unfolding perform
get-got disksize n w b s run = rw run refl

bget-block :
    (disksize n : ℕ) (w : World) (v : ℕ → Block) (b : ℕ) (s : Bcache)
    → Inv disksize w v
    → bget 1 n w.cache ≡ ok (b, s)
    → (s.buf b).blockno ≡ n
unfolding ForBlock
bget-block disksize n w v b s inv run = bget-ForBlock disksize n w v (b, s) inv run

-- After binit and any sequence of calls of the processes, each allowed and none of which panics, bread of a block of
-- the disk for which bget has a buffer that no one has locked returns, without a panic, a locked buffer of
-- that block. Its bytes are those last written to the block, by bwrite or to a buffer left dirty for the log,
-- or else those that the disk had at the start.
pub bread_lem :
    (disksize : ℕ) (disk : ℕ → Block) (w : World) (v : ℕ → Block) (n b : ℕ) (s : Bcache)
    → Reach disksize disk w v
    → n < disksize
    → bget 1 n w.cache ≡ ok (b, s)
    → (s.buf b).locked ≡ false
    → (w' : World) × ((perform disksize (get n) w >>= (λ w1. perform disksize (lock b) w1)) ≡ ok w')
      × ((w'.cache.buf b).locked ≡ true)
      × ((w'.cache.buf b).blockno ≡ n)
      × ((w'.cache.buf b).bytes ≡ v n)
bread_lem disksize disk w v n b s reach n_ok run unlocked =
    let w1 : World = record { cache = s; waiting = update w.waiting b (w.waiting b + 1) } in
    let got = get-got disksize n w b s run in
    let reach1 = calls w w1 v (get n) reach n_ok got in
    let block : (s.buf b).blockno ≡ n =
      bget-block disksize n w v b s (Reach-Inv disksize disk w v reach) run in
    let some_wait : update w.waiting b (w.waiting b + 1) b ≢ 0 = rw (==_refl b) (omega arith) in
    let (w', run', locked, same, bytes) =
      lock-reads disksize disk w1 v b reach1 (some_wait, unlocked) in
    (w', rw got run', locked, same ∙ block, bytes ∙ ap v block)
