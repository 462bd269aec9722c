-- ===== src/Fs/Namex.antt =====
-- fs.c: `namex` goes down a path in as many rounds as it has elements.
use mathlib.Core.Path.{fun_ext}
use schoolstuff.Base.{
  ℕ, suc, ◌<◌, ◌≤◌, ◌≡◌, Bool, inl, inr, List, arith, length, length-append, ap, zero, ◌++◌,
}
use schoolstuff.Fs.{Volume}
use schoolstuff.Fs.Icache.{Cache}
use schoolstuff.Fs.Elements.{slashes, Removed, skipelem_lem}
use schoolstuff.Fs.Inode.{Buffer, Devsw}
use schoolstuff.Fs.Paths.{walk, namex_from}

length-slashes : (n : ℕ) (p : List ℕ) → length p ≤ length (slashes n ++ p)
length-slashes zero p = omega arith
length-slashes (suc n) p = omega (arith, length-slashes n p)

Removed-shorter :
    (path rest : List ℕ) (name name' : Buffer)
    → Removed path name rest name'
    → length rest < length path
Removed-shorter path rest name name' removed =
    let whole : length path
        ≡ length (slashes removed.before ++ (removed.elem ++ (slashes removed.after ++ rest))) =
      ap length removed.split in
    omega (
      arith,
      whole,
      length-slashes removed.before (removed.elem ++ (slashes removed.after ++ rest)),
      length-append removed.elem (slashes removed.after ++ rest),
      length-slashes removed.after rest,
      removed.some_byte,
    )

-- With one round for each byte of the path and one more, namex does not run out of rounds, whatever is
-- on the disk: more rounds do not change what it does.
pub namex_from-fuel :
    (f g : ℕ) (k : Devsw) (parent : Bool) (i : ℕ) (path : List ℕ) (name : Buffer) (c : Cache)
    (v : Volume)
    → length path < f
    → length path < g
    → namex_from f k parent i path name c v ≡ namex_from g k parent i path name c v
unfolding namex_from
namex_from-fuel zero g k parent i path name c v hf hg = absurd (omega arith)
namex_from-fuel (suc f) zero k parent i path name c v hf hg = absurd (omega arith)
namex_from-fuel (suc f) (suc g) k parent i path name c v hf hg = elim (skipelem_lem path name) [
  | inl (e, n, split) ↦ rw e
  | inr (rest, name', e, removed) ↦
      let shorter = Removed-shorter path rest name name' removed in
      rw e (
        ap (λ more. walk more k parent i rest name' c v)
          (fun_ext (λ j. fun_ext (λ n. fun_ext (λ c'.
            fun_ext
              (λ v'. namex_from-fuel f g k parent j rest n c' v' (omega arith) (omega arith)))))))
]
