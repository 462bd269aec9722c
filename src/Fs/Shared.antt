-- ===== src/Fs/Shared.antt =====
-- fs.c: the references to inodes in memory, and that each inode of the disk has one entry at most.
use mathlib.Core.Path.{subst}
use native.Mathlib.Decide.{ℕ_discrete}
use schoolstuff.Base.{
  ℕ, zero, suc, ◌+◌, ◌-◌, ◌≤◌, ◌<◌, ◌≡◌, refl, true, false, none, List, ◌∷◌, ◌++◌, arith, ◌==◌,
  if◌then◌else◌, update, inl, inr, Bool-cases, ne→==, ==_refl, sym, ap, ◌∙◌, count, count-middle,
}
use schoolstuff.Base.Outcome.{ok, OnOk, OnOk-ok, OnOk-then}
use schoolstuff.Fs.{half_at, Volume}
use schoolstuff.Fs.Inode.{Inode, inode_block, inode_offset}
use schoolstuff.Fs.Icache.{
  n_inode, Cache, Lookup, hit, miss, get_slot, iget, idup, iput, ialloc_from, ialloc,
}
use schoolstuff.Fs.Tracked.{
  System, Tracked, is_cached-intro, is_cached-elim, Got-Tracked, renames-Tracked,
}
use schoolstuff.Fs.Calls.{Looks, iget_from-Looks, Got, iget-Got, Names, Put, iput-Put}

-- A call by a holder of a reference, or a change by the holder of an inode's lock.
pub data Step : System → System → Type 0 where
  gets :
      {c c' : Cache} {held : List ℕ} (dev inum i : ℕ)
      → iget dev inum c ≡ ok (i, c')
      → Step (record { cache = c; held = held }) (record { cache = c'; held = i ∷ held })
  allocs :
      {c c' : Cache} {held : List ℕ} (dev type i : ℕ) (v v' : Volume)
      → ialloc dev type c v ≡ ok (i, c', v')
      → Step (record { cache = c; held = held }) (record { cache = c'; held = i ∷ held })
  dups :
      {c : Cache} (before after : List ℕ) (i : ℕ)
      → Step
          (record { cache = c; held = before ++ i ∷ after })
          (record { cache = idup i c; held = i ∷ before ++ i ∷ after })
  puts :
      {c c' : Cache} (before after : List ℕ) (i : ℕ) (v v' : Volume)
      → iput i c v ≡ ok (c', v')
      → Step
          (record { cache = c; held = before ++ i ∷ after })
          (record { cache = c'; held = before ++ after })
  sets :
      {c : Cache} {held : List ℕ} (i : ℕ) (ip : Inode)
      → Names (c i) ip
      → Step (record { cache = c; held = held }) (record { cache = update c i ip; held = held })

pub data Reach (s : System) : System → Type 0 where
  here : Reach s s
  next : {u v : System} → Reach s u → Step u v → Reach s v

ialloc_from-Got :
    (dev type n inum : ℕ) (c : Cache) (v : Volume)
    → OnOk
        (λ (p : ℕ × Cache × Volume). (k : ℕ) × Got dev k c p.0 p.1)
        (ialloc_from dev type n inum c v)
unfolding ialloc_from
ialloc_from-Got dev type zero inum c v = tt
ialloc_from-Got dev type (suc n) inum c v =
    elim (Bool-cases (half_at (v.blocks (inode_block v.sb inum)) (inode_offset inum) == 0)) [
      | inl free ↦ rw free (
          OnOk-then (λ (p : ℕ × Cache). Got dev inum c p.0 p.1)
            (λ (p : ℕ × Cache × Volume). (k : ℕ) × Got dev k c p.0 p.1) (iget dev inum c) _
            (iget-Got dev inum c) (λ p got. (inum, got)))
      | inr used ↦ rw used (ialloc_from-Got dev type n (inum + 1) c v)
    ]

ialloc-Got :
    (dev type : ℕ) (c : Cache) (v : Volume)
    → OnOk (λ (p : ℕ × Cache × Volume). (k : ℕ) × Got dev k c p.0 p.1) (ialloc dev type c v)
unfolding ialloc
ialloc-Got dev type c v = ialloc_from-Got dev type (v.sb.ninodes - 1) 1 c v

idup-refs : (i : ℕ) (c : Cache) (j : ℕ) → (idup i c j).ref ≡ (c j).ref + (if i == j then 1 else 0)
unfolding idup
idup-refs i c j = elim (ℕ_discrete i j) [
  | yes q ↦ rw (q, ==_refl j)
  | no ne ↦ rw (ne→== i j ne) (omega arith)
]

idup-Names :
    (i : ℕ) (c : Cache) (j : ℕ) → ((idup i c j).dev ≡ (c j).dev) × ((idup i c j).inum ≡ (c j).inum)
unfolding idup
idup-Names i c j = elim (ℕ_discrete i j) [
  | yes q ↦ rw (q, ==_refl j) (refl, refl)
  | no ne ↦ rw (ne→== i j ne) (refl, refl)
]

update-Names :
    (i : ℕ) (c : Cache) (ip : Inode) → Names (c i) ip → (j : ℕ) → Names (c j) (update c i ip j)
update-Names i c ip same j = elim (ℕ_discrete i j) [
  | yes q ↦ rw (sym q, ==_refl i) same
  | no ne ↦ rw (ne→== i j ne) (refl, refl, refl)
]

Step-Tracked : {s t : System} → Tracked s → Step s t → Tracked t
Step-Tracked inv (gets {c} dev inum i e) =
    Got-Tracked inv (OnOk-ok (λ (p : ℕ × Cache). Got dev inum c p.0 p.1) (iget-Got dev inum c) e)
Step-Tracked inv (allocs {c} dev type i v v' e) =
    let (k, got) =
      OnOk-ok (λ (p : ℕ × Cache × Volume). (k : ℕ) × Got dev k c p.0 p.1) (ialloc-Got dev type c v)
        e in
    Got-Tracked inv got
Step-Tracked inv (dups {c} before after i) =
    renames-Tracked inv (idup-Names i c) (λ j h. omega (arith, idup-refs i c j, inv.counted j h))
      (λ j h r. elim (Bool-cases (i == j)) [
        | inl t ↦
            let middle : count j (before ++ i ∷ after) ≡ count j (before ++ after) + 1 =
              subst
                (λ b.
                  count j (before ++ i ∷ after) ≡ count j (before ++ after) + (if b then 1 else 0))
                t (count-middle j i before after) in
            omega (arith, middle, inv.counted j h)
        | inr f ↦
            let same : (idup i c j).ref ≡ (c j).ref + 0 =
              subst (λ b. (idup i c j).ref ≡ (c j).ref + (if b then 1 else 0)) f
                (idup-refs i c j) in
            omega (arith, same, r)
      ])
Step-Tracked inv (puts {c} {c'} before after i v v' e) =
    let put = OnOk-ok (λ (p : Cache × Volume). Put c i p.0) (iput-Put i c v) e in
    renames-Tracked inv put.names
      (λ j h. omega (arith, put.refs j, inv.counted j h, count-middle j i before after))
      (λ j h r. omega (arith, put.refs j, r))
Step-Tracked inv (sets {c} i ip same) =
    renames-Tracked inv (λ j. let (d, n, r) = update-Names i c ip same j in (d, n))
      (λ j h. (update-Names i c ip same j).2 ∙ inv.counted j h)
      (λ j h r. omega (arith, (update-Names i c ip same j).2, r))

-- Whatever sequence of `iget`, `ialloc`, `idup`, `iput` and changes of inodes, the count of each entry is
-- the number of references that are held to it, and no two entries in use are of the same inode.
pub Reach-Tracked : {s t : System} → Tracked s → Reach s t → Tracked t
Reach-Tracked inv here = inv
Reach-Tracked inv (next reach step) = Step-Tracked (Reach-Tracked inv reach) step

found-held :
    (c : Cache) (held : List ℕ) (i : ℕ) (l : Lookup)
    → Tracked (record { cache = c; held = held })
    → i < n_inode
    → 1 ≤ (c i).ref
    → Looks (c i).dev (c i).inum c l
    → l ≡ hit i
found-held c held i (hit k) inv small r (hk, e) =
    let (rk, dk, nk) = is_cached-elim (c i).dev (c i).inum (c k) e in
    ap hit (inv.unique k i hk small rk r dk nk)
found-held c held i (miss spare) inv small r (absent, rem) =
    let clash : true ≡ false =
      sym (is_cached-intro (c i).dev (c i).inum (c i) r refl refl) ∙ absent i small in
    ground arith

-- Whatever came before, who holds a reference to an inode and asks `iget` for that inode gets
-- the entry that it holds, with one reference more, as from `idup`.
pub iget-held :
    {s : System} (c : Cache) (before after : List ℕ) (i : ℕ)
    → i < n_inode
    → Tracked s
    → Reach s (record { cache = c; held = before ++ i ∷ after })
    → iget (c i).dev (c i).inum c ≡ ok (i, idup i c)
unfolding iget idup
iget-held c before after i small inv reach =
    let end = Reach-Tracked inv reach in
    let middle : count i (before ++ i ∷ after) ≡ count i (before ++ after) + 1 =
      rw (==_refl i) at (count-middle i i before after) in
    let looks =
      iget_from-Looks (c i).dev (c i).inum n_inode 0 none c (omega arith)
        (λ j h. absurd (omega arith)) (λ j h. absurd (omega arith)) in
    ap (get_slot (c i).dev (c i).inum c) (
      found-held c (before ++ i ∷ after) i _ end small (omega (arith, end.counted i small, middle))
        looks)
