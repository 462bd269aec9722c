-- ===== src/Log/Atomic.antt =====
-- log.c: a commit and the restarts after it, from the first crash to the recovery that completes.
use schoolstuff.Base.{
  ℕ, ◌≤◌, ◌<◌, ◌≡◌, false, List, [], ◌∷◌, arith, leb, if◌then◌else◌, Bool-cases, inl, inr,
}
use schoolstuff.Log.{Block, Store, boot, Log, commit, recover_from_log}
use schoolstuff.Log.Loops.{IsData}
use schoolstuff.Log.Recovery.{Recovers, recover_crash}
use schoolstuff.Log.Crash.{Ready, commit_crash}

-- The log in memory after a restart: all that recovery reads of it is its place on the disk.
abbrev pub restarted : Log → Log
restarted l = record l { outstanding = 0; committing = false; n = 0; block = λ i. 0 }

-- The disk after a restart whose recovery gets as far as its power allows.
unfoldable pub restart : Log → ℕ → (ℕ → Block) → ℕ → Block
restart l power d = (recover_from_log (restarted l) (boot d power)).1.disk

unfoldable pub restarts : Log → List ℕ → (ℕ → Block) → ℕ → Block
restarts l [] d = d
restarts l (power ∷ later) d = restarts l later (restart l power d)

restart-Recovers :
    (l : Log) (d f : ℕ → Block) (p : ℕ)
    → Recovers l d f
    → Recovers l (restart l p d) f
      × (d l.start 0 < p
          → (restart l p d l.start 0 ≡ 0) × ((b : ℕ) → IsData l b → restart l p d b ≡ f b))
unfolding restart
restart-Recovers l d f p rec =
    let old : Recovers (restarted l) d f = record {
      small = rec.small;
      home = rec.home;
      content = rec.content;
    } in
    let (new, late) = recover_crash (restarted l) d f p old in
    (record { small = new.small; home = new.home; content = new.content }, late)

restarts-Recovers :
    (l : Log) (d f : ℕ → Block) (powers : List ℕ)
    → Recovers l d f
    → Recovers l (restarts l powers d) f
unfolding restarts
restarts-Recovers l d f [] rec = rec
restarts-Recovers l d f (p ∷ later) rec =
    restarts-Recovers l (restart l p d) f later (restart-Recovers l d f p rec).0

-- The power of a commit decides its outcome: writes enough for the log and its header.
abbrev pub outcome : Log → Store → ℕ → Block
outcome l s = if leb s.power l.n then s.disk else s.mem

commit-Recovers : (l : Log) (s : Store) → Ready l s → Recovers l (commit l s).1.disk (outcome l s)
commit-Recovers l s ready = elim (Bool-cases (leb s.power l.n)) [
  | inl h ↦ let old = (commit_crash l s ready).0 (ground arith) in rw h old
  | inr h ↦ let new = (commit_crash l s ready).1 (ground arith) in rw h new
]

-- A commit that is cut off after any number of its block writes, then any number of recoveries
-- that are cut off in the same way, then one that has the power for a log: the header on the disk
-- is empty, and the data blocks are all the old ones if the writes of the commit stopped before
-- its first header, and all those in memory if they did not.
pub commit_atomic :
    (l : Log) (s : Store) (powers : List ℕ) (power : ℕ)
    → Ready l s
    → l.size ≤ power
    → let d = restart l power (restarts l powers (commit l s).1.disk) in
      (d l.start 0 ≡ 0)
      × ((b : ℕ) → IsData l b → d b ≡ (if leb s.power l.n then s.disk b else s.mem b))
commit_atomic l s powers power ready enough =
    let d = restarts l powers (commit l s).1.disk in
    let rec =
      restarts-Recovers l (commit l s).1.disk (outcome l s) powers (commit-Recovers l s ready) in
    let (_, done) = restart-Recovers l d (outcome l s) power rec in
    let (empty, same) = done (omega (arith, rec.small)) in
    (
      empty,
      λ b hb. elim (Bool-cases (leb s.power l.n)) [
        | inl h ↦ let old = same b hb in rw h (rw h at old)
        | inr h ↦ let new = same b hb in rw h (rw h at new)
      ],
    )
