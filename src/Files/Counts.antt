-- ===== src/Files/Counts.antt =====
-- file.c: a file's count is the number of references to it, whoever allocates, duplicates and closes.
use mathlib.Core.Path.{subst}
use native.Mathlib.Decide.{ℕ_discrete}
use schoolstuff.Base.{
  count, count-middle, ℕ, zero, suc, ◌+◌, ◌-◌, ◌≤◌, ◌<◌, ◌≡◌, ◌⊎◌, refl, true, false, Option, none,
  some, List, ◌∷◌, ◌++◌, arith, ltb, ◌==◌, if◌then◌else◌, update, inl, inr, Bool-cases, from_next,
  ne→==, ==_refl, ◌∙◌,
}
use schoolstuff.Base.Outcome.{ok, OnOk, OnOk-ok}
use schoolstuff.Files.{
  nfile, File, Ftable, Release, find_free, filealloc, filedup, nothing, closes_pipe, puts_inode,
  release_of, fileclose, Kind,
}

-- The table with the references that the kernel holds, one for each pointer.
pub record System : Type 0 where
  pub table : Ftable
  pub held : List ℕ

-- One call by a holder of a reference, or a change of the file behind one.
pub data Step : System → System → Type 0 where
  allocs :
      {t t' : Ftable} {held : List ℕ} (i : ℕ)
      → filealloc t ≡ some (i, t')
      → Step (record { table = t; held = held }) (record { table = t'; held = i ∷ held })
  dups :
      {t t' : Ftable} (before after : List ℕ) (i : ℕ)
      → filedup i t ≡ ok t'
      → Step
          (record { table = t; held = before ++ i ∷ after })
          (record { table = t'; held = i ∷ before ++ i ∷ after })
  closes :
      {t t' : Ftable} {r : Release} (before after : List ℕ) (i : ℕ)
      → fileclose i t ≡ ok (t', r)
      → Step
          (record { table = t; held = before ++ i ∷ after })
          (record { table = t'; held = before ++ after })
  sets :
      {t : Ftable} {held : List ℕ} (i : ℕ) (f : File)
      → f.ref ≡ (t i).ref
      → Step (record { table = t; held = held }) (record { table = update t i f; held = held })

pub data Reach (s : System) : System → Type 0 where
  here : Reach s s
  next : {u v : System} → Reach s u → Step u v → Reach s v

-- Each slot of the table counts the references to it.
abbrev pub Counted : System → Type 0
Counted s = (i : ℕ) → i < nfile → (s.table i).ref ≡ count i s.held

-- The search finds the first slot with no references, if there is one.
pub find_free_lem :
    (n i : ℕ) (t : Ftable)
    → ((find_free n i t ≡ none) × ((j : ℕ) → i ≤ j → j < i + n → 1 ≤ (t j).ref))
      ⊎ ((k : ℕ) × (find_free n i t ≡ some k)
          × (i ≤ k)
          × (k < i + n)
          × ((t k).ref ≡ 0)
          × ((j : ℕ) → i ≤ j → j < k → 1 ≤ (t j).ref))
unfolding find_free
find_free_lem zero i t = inl (refl, λ j h1 h2. absurd (omega arith))
find_free_lem (suc n) i t = elim (ℕ_discrete (t i).ref 0) [
  | yes z ↦
      let test : ((t i).ref == 0) ≡ true = ground arith in
      rw test (inr (i, refl, omega arith, omega arith, z, λ j h1 h2. absurd (omega arith)))
  | no nz ↦ rw (ne→== _ 0 nz) (elim (find_free_lem n (i + 1) t) [
    | inl (e, busy) ↦ inl (
      e,
      from_next (λ j. 1 ≤ (t j).ref) i (i + suc n) (omega arith)
          (λ j h1 h2. busy j h1 (omega arith)),
    )
    | inr (k, e, lo, hi, z, busy) ↦
        inr
          (k, e, omega arith, omega arith, z, from_next (λ j. 1 ≤ (t j).ref) i k (omega arith) busy)
  ])
]

-- filealloc returns a null pointer and every file of the table is referred to; or it
-- returns the first file that is not, with one reference, and changes nothing else.
pub filealloc_lem :
    (t : Ftable)
    → ((filealloc t ≡ none) × ((j : ℕ) → j < nfile → 1 ≤ (t j).ref))
      ⊎ ((k : ℕ) × (filealloc t ≡ some (k, update t k (record (t k) { ref = 1 })))
          × (k < nfile)
          × ((t k).ref ≡ 0)
          × ((j : ℕ) → j < k → 1 ≤ (t j).ref))
unfolding filealloc
filealloc_lem t = elim (find_free_lem nfile 0 t) [
  | inl (e, busy) ↦ inl (rw e refl, λ j h. busy j (omega arith) (omega arith))
  | inr (k, e, lo, hi, z, busy) ↦ inr (k, rw e refl, omega arith, z, λ j h. busy j (omega arith) h)
]

abbrev Allocated : Ftable → Option (ℕ × Ftable) → Type 0
Allocated t none = Unit
Allocated t (some (i, t')) = (j : ℕ) → (t' j).ref ≡ (t j).ref + (if i == j then 1 else 0)

filealloc-Allocated : (t : Ftable) → Allocated t (filealloc t)
filealloc-Allocated t = elim (filealloc_lem t) [
  | inl (e, busy) ↦ rw e tt
  | inr (k, e, hi, z, busy) ↦ rw e (λ j. elim (ℕ_discrete k j) [
    | yes q ↦ let z_j : (t j).ref ≡ 0 = rw q at z in rw (q, ==_refl j) (omega arith)
    | no ne ↦ rw (ne→== k j ne) (omega arith)
  ])
]

filedup-ok :
    (i : ℕ) (t : Ftable)
    → 1 ≤ (t i).ref
    → filedup i t ≡ ok (update t i (record (t i) { ref = (t i).ref + 1 }))
unfolding filedup
filedup-ok i t h = let test : ltb (t i).ref 1 ≡ false = ground arith in rw test

filedup-ref :
    (i : ℕ) (t : Ftable)
    → OnOk (λ t'. (j : ℕ) → (t' j).ref ≡ (t j).ref + (if i == j then 1 else 0)) (filedup i t)
unfolding filedup
filedup-ref i t = elim (Bool-cases (ltb (t i).ref 1)) [
  | inl none_held ↦ rw none_held tt
  | inr held ↦ rw held (λ j. elim (ℕ_discrete i j) [
    | yes e ↦ rw (e, ==_refl j)
    | no ne ↦ rw (ne→== i j ne) (omega arith)
  ])
]

-- A reference less, and what is released with the last one.
record Closed (i : ℕ) (t t' : Ftable) (r : Release) : Type 0 where
  pub refs : (j : ℕ) → (t' j).ref + (if i == j then 1 else 0) ≡ (t j).ref
  pub shared : 2 ≤ (t i).ref → r ≡ nothing
  pub last : (t i).ref ≡ 1 → r ≡ release_of (t i)

fileclose-Closed :
    (i : ℕ) (t : Ftable) → OnOk (λ (p : Ftable × Release). Closed i t p.0 p.1) (fileclose i t)
unfolding fileclose
fileclose-Closed i t = elim (Bool-cases (ltb (t i).ref 1)) [
  | inl none_held ↦ rw none_held tt
  | inr held ↦ elim (Bool-cases (ltb 0 ((t i).ref - 1))) [
    | inl more ↦
        rw (held, more)
          (record {
            refs = λ j. elim (ℕ_discrete i j) [
              | yes e ↦
                  let pos : 1 ≤ (t i).ref = ground arith in
                  let pos_j : 1 ≤ (t j).ref = rw e at pos in rw (e, ==_refl j) (omega arith)
              | no ne ↦ rw (ne→== i j ne) (omega arith)
            ];
            shared = λ h. refl;
            last = λ h. absurd (ground arith);
          })
    | inr zero_left ↦
        rw (held, zero_left)
          (record {
            refs = λ j. elim (ℕ_discrete i j) [
              | yes e ↦
                  let one : (t i).ref ≡ 1 = ground arith in
                  let one_j : (t j).ref ≡ 1 = rw e at one in rw (e, ==_refl j) (omega arith)
              | no ne ↦ rw (ne→== i j ne) (omega arith)
            ];
            shared = λ h. absurd (ground arith);
            last = λ h. refl;
          })
  ]
]

Step-Counted : {u v : System} → Counted u → Step u v → Counted v
Step-Counted counted (allocs {t} {t'} {held} i e) j h =
    let refs = subst (Allocated t) e (filealloc-Allocated t) in omega (arith, refs j, counted j h)
Step-Counted counted (dups {t} {t'} before after i e) j h =
    let refs =
      OnOk-ok (λ t'. (j : ℕ) → (t' j).ref ≡ (t j).ref + (if i == j then 1 else 0)) (filedup-ref i t)
        e in
    omega (arith, refs j, counted j h)
Step-Counted counted (closes {t} {t'} {r} before after i e) j h =
    let closed = OnOk-ok (λ (p : Ftable × Release). Closed i t p.0 p.1) (fileclose-Closed i t) e in
    omega (arith, closed.refs j, counted j h, count-middle j i before after)
Step-Counted counted (sets {t} {held} i f e) j h = elim (ℕ_discrete i j) [
  | yes q ↦ rw (q, ==_refl j) (e ∙ rw q (counted j h))
  | no ne ↦ rw (ne→== i j ne) (counted j h)
]

-- Every sequence of filealloc, filedup, fileclose and changes of files keeps the counts of all the
-- files equal to the number of references that are held to them.
pub Reach-Counted : {u v : System} → Counted u → Reach u v → Counted v
Reach-Counted counted here = counted
Reach-Counted counted (next reach step) = Step-Counted (Reach-Counted counted reach) step

fileclose-returns :
    (i : ℕ) (t : Ftable)
    → 1 ≤ (t i).ref
    → (t' : Ftable) × (r : Release) × (fileclose i t ≡ ok (t', r))
unfolding fileclose
fileclose-returns i t h = let test : ltb (t i).ref 1 ≡ false = ground arith in rw test (_, _, refl)

fileclose-ok :
    (i : ℕ) (t : Ftable)
    → 1 ≤ (t i).ref
    → (t' : Ftable) × (r : Release) × (fileclose i t ≡ ok (t', r)) × Closed i t t' r
fileclose-ok i t h =
    let (t', r, e) = fileclose-returns i t h in
    (t', r, e, OnOk-ok (λ (p : Ftable × Release). Closed i t p.0 p.1) (fileclose-Closed i t) e)

release_of-pipe : (f : File) → f.kind ≡ Kind.fd_pipe → release_of f ≡ closes_pipe f.pipe f.writable
release_of-pipe f e = rw e refl

release_of-inode : (f : File) → f.kind ≡ Kind.fd_inode → release_of f ≡ puts_inode f.ip
release_of-inode f e = rw e refl

release_of-none : (f : File) → f.kind ≡ Kind.fd_none → release_of f ≡ nothing
release_of-none f e = rw e refl

-- Whatever calls came before, a holder of a reference can duplicate it and close it: filedup and
-- fileclose do not panic. If no other reference is held, fileclose releases the end of the pipe, the
-- writing one for a writable file, if the file is one of a pipe, and the inode if it is one of an inode;
-- it releases nothing if another reference is held, or for a file of neither kind.
pub held_can_close :
    {u : System} (t : Ftable) (before after : List ℕ) (i : ℕ)
    → i < nfile
    → Counted u
    → Reach u (record { table = t; held = before ++ i ∷ after })
    → ((t' : Ftable) × (filedup i t ≡ ok t'))
      × ((t' : Ftable) × (r : Release) × (fileclose i t ≡ ok (t', r))
          × (count i (before ++ after) ≡ 0
              → (t i).kind ≡ Kind.fd_pipe
              → r ≡ closes_pipe (t i).pipe (t i).writable)
          × (count i (before ++ after) ≡ 0 → (t i).kind ≡ Kind.fd_inode → r ≡ puts_inode (t i).ip)
          × (count i (before ++ after) ≡ 0 → (t i).kind ≡ Kind.fd_none → r ≡ nothing)
          × (1 ≤ count i (before ++ after) → r ≡ nothing))
held_can_close t before after i small counted reach =
    let refs = Reach-Counted counted reach i small in
    let middle : count i (before ++ i ∷ after) ≡ count i (before ++ after) + 1 =
      rw (==_refl i) at (count-middle i i before after) in
    let pos : 1 ≤ (t i).ref = omega (arith, refs, middle) in
    let (t', r, e, closed) = fileclose-ok i t pos in
    (
      (_, filedup-ok i t pos),
      (
        t',
        r,
        e,
        λ last kind. closed.last (omega (arith, refs, middle)) ∙ release_of-pipe (t i) kind,
        λ last kind. closed.last (omega (arith, refs, middle)) ∙ release_of-inode (t i) kind,
        λ last kind. closed.last (omega (arith, refs, middle)) ∙ release_of-none (t i) kind,
        λ more. closed.shared (omega (arith, refs, middle)),
      ),
    )
