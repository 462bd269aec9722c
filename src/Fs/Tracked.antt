-- ===== src/Fs/Tracked.antt =====
-- fs.c: the invariant of the table of inodes in memory, and that what the calls do to it keeps it.
use mathlib.Core.Path.{subst}
use native.Mathlib.Decide.{ℕ_discrete}
use schoolstuff.Base.{
  ℕ, ◌+◌, ◌≤◌, ◌<◌, ◌≡◌, ◌≢◌, true, false, List, ◌∷◌, arith, if◌then◌else◌, inl, inr, ne→==, sym,
  ◌∙◌, count,
}
use schoolstuff.Fs.Inode.{Inode}
use schoolstuff.Fs.Icache.{n_inode, Cache, is_cached}
use schoolstuff.Fs.Calls.{Got}

-- The table of inodes, with the references that the kernel holds, one for each pointer.
pub record System : Type 0 where
  pub cache : Cache
  pub held : List ℕ

-- Each entry counts the references to it, and no two entries in use are of the same inode.
pub record Tracked (s : System) : Type 0 where
  pub counted : (i : ℕ) → i < n_inode → (s.cache i).ref ≡ count i s.held
  pub unique :
      (i j : ℕ)
      → i < n_inode
      → j < n_inode
      → 1 ≤ (s.cache i).ref
      → 1 ≤ (s.cache j).ref
      → (s.cache i).dev ≡ (s.cache j).dev
      → (s.cache i).inum ≡ (s.cache j).inum
      → i ≡ j

pub is_cached-intro :
    (dev inum : ℕ) (ip : Inode)
    → 1 ≤ ip.ref
    → ip.dev ≡ dev
    → ip.inum ≡ inum
    → is_cached dev inum ip ≡ true
is_cached-intro dev inum ip r d n = ground arith

pub is_cached-elim :
    (dev inum : ℕ) (ip : Inode)
    → is_cached dev inum ip ≡ true
    → (1 ≤ ip.ref) × (ip.dev ≡ dev) × (ip.inum ≡ inum)
is_cached-elim dev inum ip e = (ground arith, ground arith, ground arith)

other_ref :
    {dev inum i : ℕ} {c c' : Cache}
    → Got dev inum c i c'
    → (j : ℕ) → i ≢ j
    → 1 ≤ (c' j).ref
    → 1 ≤ (c j).ref
other_ref {dev} {inum} {i} {c} {c'} got j ne r =
    let refs : (c' j).ref ≡ (c j).ref + 0 =
      subst (λ t. (c' j).ref ≡ (c j).ref + (if t then 1 else 0)) (ne→== i j ne) (got.refs j) in
    omega (arith, refs)

-- The entry that `iget` returned is the only one of the inode.
Got-only :
    {held : List ℕ} {dev inum i : ℕ} {c c' : Cache} (j : ℕ)
    → Tracked (record { cache = c; held = held })
    → Got dev inum c i c'
    → j < n_inode
    → 1 ≤ (c' j).ref
    → (c' j).dev ≡ dev
    → (c' j).inum ≡ inum
    → i ≡ j
Got-only {held} {dev} {inum} {i} {c} {c'} j inv got h r d n = elim (ℕ_discrete i j) [
  | yes q ↦ q
  | no ne ↦
      let r0 = other_ref got j ne r in
      let (same_d, same_n) = got.others j ne in
      elim got.found [
        | inl cached ↦
            let (ri, di, ni) = is_cached-elim dev inum (c i) cached in
            inv.unique i j got.small h ri r0 (omega (arith, same_d)) (omega (arith, same_n))
        | inr (z, absent) ↦
            let clash : true ≡ false =
              sym
                (is_cached-intro dev inum (c j) r0 (omega (arith, same_d)) (omega (arith, same_n)))
              ∙ absent j h in
            ground arith
      ]
]

pub Got-Tracked :
    {held : List ℕ} {dev inum i : ℕ} {c c' : Cache}
    → Tracked (record { cache = c; held = held })
    → Got dev inum c i c'
    → Tracked (record { cache = c'; held = i ∷ held })
Got-Tracked {held} {dev} {inum} {i} {c} {c'} inv got = record {
  counted = λ j h. omega (arith, got.refs j, inv.counted j h);
  unique = λ j k hj hk rj rk d n. elim (ℕ_discrete i j) [
    | yes q ↦
        let named_j = subst (λ x. ((c' x).dev ≡ dev) × ((c' x).inum ≡ inum)) q got.named in
        sym q ∙ Got-only k inv got hk rk (sym d ∙ named_j.0) (sym n ∙ named_j.1)
    | no ne ↦ elim (ℕ_discrete i k) [
      | yes q ↦
          let named_k = subst (λ x. ((c' x).dev ≡ dev) × ((c' x).inum ≡ inum)) q got.named in
          sym (Got-only j inv got hj rj (d ∙ named_k.0) (n ∙ named_k.1)) ∙ q
      | no ne' ↦
          let (dj, nj) = got.others j ne in
          let (dk, nk) = got.others k ne' in
          inv.unique j k hj hk (other_ref got j ne rj) (other_ref got k ne' rk)
            (omega (arith, dj, dk)) (omega (arith, nj, nk))
    ]
  ];
}

-- A step that names no entry anew.
pub renames-Tracked :
    {held held' : List ℕ} {c c' : Cache}
    → Tracked (record { cache = c; held = held })
    → ((j : ℕ) → ((c' j).dev ≡ (c j).dev) × ((c' j).inum ≡ (c j).inum))
    → ((j : ℕ) → j < n_inode → (c' j).ref ≡ count j held')
    → ((j : ℕ) → j < n_inode → 1 ≤ (c' j).ref → 1 ≤ (c j).ref)
    → Tracked (record { cache = c'; held = held' })
renames-Tracked {held} {held'} {c} {c'} inv names counted pos = record {
  counted = counted;
  unique = λ j k hj hk rj rk d n.
      let (dj, nj) = names j in
      let (dk, nk) = names k in
      inv.unique j k hj hk (pos j hj rj) (pos k hk rk) (sym dj ∙ d ∙ dk) (sym nj ∙ n ∙ nk);
}
