-- ===== src/Bcache/Tests.antt =====
-- The theorems about the block cache after binit, for a disk of a thousand blocks.
use schoolstuff.Base.{ℕ, ◌≡◌, refl, true, arith, []}
use schoolstuff.Base.Outcome.{ok, ◌>>=◌}
use schoolstuff.Log.{Block}
use schoolstuff.Bcache.{Bcache, nbuf, follow, binit, insert_all, insert_first, bget, recycle}
use schoolstuff.Bcache.Moves.{pushed}
use schoolstuff.Bcache.Choice.{Gets, bget_lem}
use schoolstuff.Bcache.Sharing.{World, get, lock, perform}
use schoolstuff.Bcache.View.{Performs, perform-Inv, booted, boots}
use schoolstuff.Bcache.Blocks.{booted-Full, booted-Inv, bread_lem}

-- Each block holds its number.
abbrev numbered : ℕ → Block
numbered n i = n

abbrev cache : Bcache
cache = (booted numbered).cache

bget_lem_example : Gets 1 5 cache (pushed nbuf 0 []) (bget 1 5 cache)
bget_lem_example = bget_lem 1 5 cache (pushed nbuf 0 []) (booted-Full numbered)

perform-Inv_example : Performs 1000 (get 5) (booted numbered) numbered
perform-Inv_example =
    perform-Inv 1000 (get 5) (booted numbered) numbered (booted-Inv 1000 numbered) (omega arith)

-- The buffer that was put in first is the last of the list.
recycled_first : bget 1 5 cache ≡ ok (0, recycle 1 5 0 cache)
unfolding bget follow binit insert_all insert_first
recycled_first = refl

bread_lem_example :
    (w' : World) × ((perform 1000 (get 5) (booted numbered) >>= (λ w1. perform 1000 (lock 0) w1))
      ≡ ok w')
    × ((w'.cache.buf 0).locked ≡ true)
    × ((w'.cache.buf 0).blockno ≡ 5)
    × ((w'.cache.buf 0).bytes ≡ numbered 5)
unfolding binit insert_all insert_first
bread_lem_example =
    bread_lem 1000 numbered (booted numbered) numbered 5 0 (recycle 1 5 0 cache) boots (omega arith)
      recycled_first refl
