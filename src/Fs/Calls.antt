-- ===== src/Fs/Calls.antt =====
-- fs.c: what the calls of the table of inodes do to its entries.
use mathlib.Core.Path.{subst}
use native.Mathlib.Decide.{ℕ_discrete}
use schoolstuff.Base.{
  ℕ, zero, suc, ◌+◌, ◌-◌, ◌≤◌, ◌<◌, ◌≡◌, ◌≢◌, ◌⊎◌, refl, true, false, ◌&&◌, Option, none, some,
  arith, ◌==◌, if◌then◌else◌, update, inl, inr, Bool-cases, ne→==, ==_refl, sym,
}
use schoolstuff.Base.Outcome.{ok, ◌>>=◌, OnOk, OnOk->>=, OnOk-then}
use schoolstuff.Fs.{n_direct, n_indirect, Volume, bfree}
use schoolstuff.Fs.Inode.{Inode}
use schoolstuff.Fs.Icache.{
  n_inode, Cache, is_cached, Lookup, hit, miss, remember, iget_from, get_slot, iget, itrunc,
  drop_content, iput, free_direct, free_indirect,
}

-- What the loop of `iget` has remembered, after the slots before `i`.
abbrev Remembers : Option ℕ → ℕ → Cache → Type 0
Remembers none i c = (j : ℕ) → j < i → 1 ≤ (c j).ref
Remembers (some e) i c = (e < i) × ((c e).ref ≡ 0)

remember-Remembers :
    (empty : Option ℕ) (i : ℕ) (c : Cache)
    → Remembers empty i c
    → Remembers (remember empty (c i) i) (i + 1) c
remember-Remembers (some e) i c (lt, z) = (omega arith, z)
remember-Remembers none i c all = elim (ℕ_discrete (c i).ref 0) [
  | yes z ↦ let test : ((c i).ref == 0) ≡ true = ground arith in rw test (omega arith, z)
  | no nz ↦
      rw (ne→== _ 0 nz)
        (λ j h. elim (ℕ_discrete j i) [ yes e ↦ rw e (omega arith) | no ne ↦ all j (omega arith) ])
]

-- The entry of an inode, if there is one, and else a free one or none.
abbrev pub Looks : ℕ → ℕ → Cache → Lookup → Type 0
Looks dev inum c (hit k) = (k < n_inode) × (is_cached dev inum (c k) ≡ true)
Looks dev inum c (miss empty) =
    ((j : ℕ) → j < n_inode → is_cached dev inum (c j) ≡ false) × Remembers empty n_inode c

pub iget_from-Looks :
    (dev inum n i : ℕ) (empty : Option ℕ) (c : Cache)
    → i + n ≡ n_inode
    → Remembers empty i c
    → ((j : ℕ) → j < i → is_cached dev inum (c j) ≡ false)
    → Looks dev inum c (iget_from dev inum n i empty c)
unfolding iget_from
iget_from-Looks dev inum zero i empty c e rem before =
    let at_end : i ≡ n_inode = omega arith in
    ((λ j h. before j (omega arith)), subst (λ k. Remembers empty k c) at_end rem)
iget_from-Looks dev inum (suc n) i empty c e rem before =
    elim (Bool-cases (is_cached dev inum (c i))) [
      | inl here ↦ rw here (omega arith, here)
      | inr not_here ↦ rw not_here (
          iget_from-Looks dev inum n (i + 1) (remember empty (c i) i) c (omega arith)
            (remember-Remembers empty i c rem)
            (λ j h. elim (ℕ_discrete j i) [
              | yes q ↦ rw q not_here
              | no ne ↦ before j (omega arith)
            ]))
    ]

-- What `iget` does to the table.
pub record Got (dev inum : ℕ) (c : Cache) (i : ℕ) (c' : Cache) : Type 0 where
  pub small : i < n_inode
  pub named : ((c' i).dev ≡ dev) × ((c' i).inum ≡ inum)
  pub refs : (j : ℕ) → (c' j).ref ≡ (c j).ref + (if i == j then 1 else 0)
  pub others : (j : ℕ) → i ≢ j → ((c' j).dev ≡ (c j).dev) × ((c' j).inum ≡ (c j).inum)
  -- The entry is the inode's, or no entry was and this one was free.
  pub found :
      (is_cached dev inum (c i) ≡ true)
      ⊎ (((c i).ref ≡ 0) × ((j : ℕ) → j < n_inode → is_cached dev inum (c j) ≡ false))

pub iget-Got :
    (dev inum : ℕ) (c : Cache) → OnOk (λ (p : ℕ × Cache). Got dev inum c p.0 p.1) (iget dev inum c)
unfolding iget
iget-Got dev inum c = get_slot-Got (iget_from dev inum n_inode 0 none c) (
    iget_from-Looks dev inum n_inode 0 none c (omega arith) (λ j h. absurd (omega arith))
      (λ j h. absurd (omega arith)))
  where
    get_slot-Got :
        (l : Lookup)
        → Looks dev inum c l
        → OnOk (λ (p : ℕ × Cache). Got dev inum c p.0 p.1) (get_slot dev inum c l)
    get_slot-Got (hit i) (small, here) = record {
      small = small;
      named = rw (==_refl i) (ground arith);
      refs = λ j. elim (ℕ_discrete i j) [
        | yes q ↦ rw (q, ==_refl j)
        | no ne ↦ rw (ne→== i j ne) (omega arith)
      ];
      others = λ j ne. rw (ne→== i j ne) (refl, refl);
      found = inl here;
    }
    get_slot-Got (miss none) looks = tt
    get_slot-Got (miss (some i)) (absent, (small, z)) = record {
      small = small;
      named = rw (==_refl i) (refl, refl);
      refs = λ j. elim (ℕ_discrete i j) [
        | yes q ↦ let zj : (c j).ref ≡ 0 = rw q at z in rw (q, ==_refl j) (omega arith)
        | no ne ↦ rw (ne→== i j ne) (omega arith)
      ];
      others = λ j ne. rw (ne→== i j ne) (refl, refl);
      found = inr (z, absent);
    }

-- What names an inode in memory, and its references.
abbrev pub Names : Inode → Inode → Type 0
Names ip ip' = (ip'.dev ≡ ip.dev) × (ip'.inum ≡ ip.inum) × (ip'.ref ≡ ip.ref)

abbrev Same : Inode → Inode × Volume → Type 0
Same ip (ip', v) = Names ip ip'

free_direct-Same : (n i : ℕ) (ip : Inode) (v : Volume) → OnOk (Same ip) (free_direct n i ip v)
unfolding free_direct
free_direct-Same zero i ip v = (refl, refl, refl)
free_direct-Same (suc n) i ip v = elim (Bool-cases (ip.addrs i == 0)) [
  | inl hole ↦ rw hole (free_direct-Same n (i + 1) ip v)
  | inr used ↦ rw used (
      OnOk->>= (Same ip) (bfree (ip.addrs i) v) _
        (λ v'. free_direct-Same n (i + 1) (record ip { addrs = update ip.addrs i 0 }) v'))
]

itrunc-Same : (ip : Inode) (v : Volume) → OnOk (Same ip) (itrunc ip v)
unfolding itrunc
itrunc-Same ip v =
    OnOk-then (Same ip) (Same ip) (free_direct n_direct 0 ip v) _ (free_direct-Same n_direct 0 ip v)
      (λ p same. elim (Bool-cases (p.0.addrs n_direct == 0)) [
        | inl hole ↦ rw hole same
        | inr used ↦ rw used (
            OnOk-then (Same ip) (Same ip)
              (free_indirect n_indirect 0 (p.0.addrs n_direct) p.1 >>= (λ v2.
                bfree (p.0.addrs n_direct) v2
                >>= (λ v3. ok (record p.0 { addrs = update p.0.addrs n_direct 0 }, v3))))
              _
              (OnOk->>= (Same ip) (free_indirect n_indirect 0 (p.0.addrs n_direct) p.1) _
                (λ v2. OnOk->>= (Same ip) (bfree (p.0.addrs n_direct) v2) _ (λ v3. same)))
              (λ q same'. same'))
      ])

drop_content-Same : (ip : Inode) (v : Volume) → OnOk (Same ip) (drop_content ip v)
unfolding drop_content
drop_content-Same ip v = elim (Bool-cases (ip.valid && (ip.nlink == 0) && (ip.ref == 1))) [
  | inl last ↦
      rw last (OnOk-then (Same ip) (Same ip) (itrunc ip v) _ (itrunc-Same ip v) (λ q same. same))
  | inr kept ↦ rw kept (refl, refl, refl)
]

-- What `iput` does to the table.
pub record Put (c : Cache) (i : ℕ) (c' : Cache) : Type 0 where
  pub refs : (j : ℕ) → (c' j).ref ≡ (c j).ref - (if i == j then 1 else 0)
  pub names : (j : ℕ) → ((c' j).dev ≡ (c j).dev) × ((c' j).inum ≡ (c j).inum)

pub iput-Put :
    (i : ℕ) (c : Cache) (v : Volume) → OnOk (λ (p : Cache × Volume). Put c i p.0) (iput i c v)
unfolding iput
iput-Put i c v =
    OnOk-then (Same (c i)) (λ (p : Cache × Volume). Put c i p.0) (drop_content (c i) v) _
      (drop_content-Same (c i) v)
      (λ p same. record {
        refs = λ j. elim (ℕ_discrete i j) [
          | yes q ↦ rw (sym q, ==_refl i) (omega (arith, same.2))
          | no ne ↦ rw (ne→== i j ne) (omega arith)
        ];
        names = λ j. elim (ℕ_discrete i j) [
          | yes q ↦ rw (sym q, ==_refl i) (same.0, same.1)
          | no ne ↦ rw (ne→== i j ne) (refl, refl)
        ];
      })
