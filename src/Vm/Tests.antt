-- ===== src/Vm/Tests.antt =====
-- The theorems about vm.c for a process of one page, with one page of memory free.
use native.Mathlib.Decide.{ℕ_discrete}
use schoolstuff.Base.{
  ℕ, ◌+◌, ◌-◌, ◌*◌, ◌/◌, ◌%◌, ◌^◌, ◌≤◌, ◌<◌, ◌≡◌, ◌≢◌, ◌⊎◌, refl, Bool, true, false, List, [], ◌∷◌,
  arith, ◌==◌, if◌then◌else◌, ◌∙◌, sym, ap,
}
use schoolstuff.Base.Outcome.{ok}
use schoolstuff.Kalloc.{Kmem}
use schoolstuff.Vm.{is_present, pte_wu, mappages, deallocuvm, allocuvm, freevm, growproc}
use schoolstuff.Vm.Tables.{dir_entry, HasTable, table_at, entry, entry-there, entry-none, Valid}
use schoolstuff.Vm.Maps.{Mapped, mappages_lem}
use schoolstuff.Vm.Users.{user_pages, frame_at, IsMapped, Space}
use schoolstuff.Vm.Shrink.{Shrunk}
use schoolstuff.Vm.Dealloc.{deallocuvm_lem}
use schoolstuff.Vm.Alloc.{Allocated}
use schoolstuff.Vm.Rollback.{Restored}
use schoolstuff.Vm.Freevm.{Freed, freevm_lem}
use schoolstuff.Vm.Resize.{Sized, Resized, growproc_lem, growproc-zero}
use schoolstuff.Vm.Sizes.{allocuvm_lem, allocuvm-deallocuvm}

-- A kernel that ends at 1 MB + 8 KB; the page directory, its page table, the process's page, a free page.
abbrev end_symbol : ℕ
end_symbol = 0x80102000

abbrev directory : ℕ
directory = 0x80200000

abbrev first_table : ℕ
first_table = 0x80201000

abbrev user_page : ℕ
user_page = 0x80202000

abbrev spare : ℕ
spare = 0x80203000

abbrev one_page : Kmem
one_page = record {
  use_lock = true;
  freelist = spare;
  word = λ a. if a == directory then 0x201007 else if a == first_table then 0x202007 else 0;
}

dir_zero : (d : ℕ) → d < 1024 → d ≢ 0 → dir_entry directory one_page d ≡ 0
dir_zero d h ne =
    let t1 : (directory + 4 * d == directory) ≡ false = ground arith in
    let t2 : (directory + 4 * d == first_table) ≡ false = ground arith in rw (t1, t2) refl

only_table : (d : ℕ) → d < 1024 → HasTable directory one_page d → d ≡ 0
only_table d h ht = elim (ℕ_discrete d 0) [
  | yes e ↦ e
  | no ne ↦
      let clash : true ≡ false = sym ht ∙ ap is_present (dir_zero d h ne) in absurd (ground arith)
]

table_zero :
    (d : ℕ) → d < 1024 → HasTable directory one_page d → table_at directory one_page d ≡ first_table
table_zero d h ht = ap (table_at directory one_page) (only_table d h ht)

one_page-Valid : Valid end_symbol directory (spare ∷ []) one_page
one_page-Valid = record {
  dir = record {
    aligned = refl;
    above = omega arith;
    physical = omega arith;
    word_sized = omega arith;
  };
  free = (
    refl,
    record {
      aligned = refl;
      above = omega arith;
      physical = omega arith;
      word_sized = omega arith;
    },
    refl,
    refl,
  );
  dir_out = refl;
  table = λ d h ht. rw (table_zero d h ht) (
    record {
      aligned = refl;
      above = omega arith;
      physical = omega arith;
      word_sized = omega arith;
    },
    refl,
    omega arith,
  );
  inj = λ d e h h' ht ht' ne. absurd (ne (only_table d h ht ∙ sym (only_table e h' ht')));
}

entry_zero : (q : ℕ) → q < 2 ^ 20 → q ≢ 0 → entry directory one_page q ≡ 0
entry_zero q h ne = elim (ℕ_discrete (q / 1024) 0) [
  | yes e ↦
      let there : HasTable directory one_page (q / 1024) =
        ap (λ d. is_present (dir_entry directory one_page d)) e in
      let t1 : (first_table + 4 * (q % 1024) == directory) ≡ false = ground arith in
      let t2 : (first_table + 4 * (q % 1024) == first_table) ≡ false = ground arith in
      entry-there directory one_page q there
      ∙ ap (λ d. one_page.word (table_at directory one_page d + 4 * (q % 1024))) e
      ∙ rw (t1, t2) refl
  | no apart ↦
      entry-none directory one_page q (ap is_present (dir_zero (q / 1024) (omega arith) apart))
]

only_page : (q : ℕ) → q < user_pages → IsMapped directory one_page q → q ≡ 0
only_page q h m = elim (ℕ_discrete q 0) [
  | yes e ↦ e
  | no ne ↦
      let clash : true ≡ false = sym m ∙ ap is_present (entry_zero q (omega arith) ne) in
      absurd (ground arith)
]

frame_zero : frame_at directory one_page 0 ≡ user_page
unfolding entry
frame_zero = refl

one_page-Space : Space end_symbol directory (spare ∷ []) one_page
one_page-Space = record {
  valid = one_page-Valid;
  frame = λ q h m. rw (ap (frame_at directory one_page) (only_page q h m) ∙ frame_zero) (record {
    page = record {
      aligned = refl;
      above = omega arith;
      physical = omega arith;
      word_sized = omega arith;
    };
    out = refl;
    no_dir = omega arith;
    no_table = λ d h2 ht. rw (table_zero d h2 ht) (omega arith);
  });
  frame_inj = λ q r h h' m m' ne. absurd (ne (only_page q h m ∙ sym (only_page r h' m')));
}

rest_absent : (q : ℕ) → q < 2 ^ 20 → 1 ≤ q → is_present (entry directory one_page q) ≡ false
rest_absent q h pos = ap is_present (entry_zero q h (omega arith))

-- Two pages, at 4096 and 8192, to the physical page after 3 MB.
mappages_lem_example :
    (done : Bool) × (s' : Kmem) × (mappages directory 4096 8192 0x300000 pte_wu one_page
      ≡ ok (done, s'))
    × Mapped end_symbol directory 1 2 0x300000 pte_wu (spare ∷ []) one_page done s'
mappages_lem_example =
    mappages_lem end_symbol directory 4096 8192 0x300000 pte_wu (spare ∷ []) one_page one_page-Valid
      (omega arith) (omega arith) refl (omega arith) (omega arith)
      (λ q lo hi. rest_absent q (omega arith) lo)

deallocuvm_lem_example :
    (xs' : List ℕ) × (s' : Kmem) × (deallocuvm end_symbol directory 10000 0 one_page ≡ ok (0, s'))
    × Shrunk end_symbol directory (spare ∷ []) one_page 0 3 xs' s'
deallocuvm_lem_example =
    deallocuvm_lem end_symbol directory 10000 0 (spare ∷ []) one_page (omega arith) (omega arith)
      one_page-Space

-- Two pages more, with memory for one of them.
allocuvm_lem_example :
    Allocated end_symbol directory
      (spare ∷ [])
      one_page
      1
      3
      12000
      (allocuvm end_symbol directory 4096 12000 one_page)
allocuvm_lem_example =
    allocuvm_lem end_symbol directory 4096 12000 (spare ∷ []) one_page (omega arith) (omega arith)
      (omega arith) one_page-Space (λ q lo hi. rest_absent q (omega arith) lo)

allocuvm-deallocuvm_example :
    (sz : ℕ) × (s1 : Kmem) × (allocuvm end_symbol directory 4096 8192 one_page ≡ ok (sz, s1))
    × (((sz ≡ 8192)
          × ((xs2 : List ℕ) × (s2 : Kmem) × (deallocuvm end_symbol directory 8192 4096 s1
                ≡ ok (4096, s2))
              × Restored end_symbol directory (spare ∷ []) one_page 1 2 xs2 s2))
        ⊎ (sz ≡ 0))
allocuvm-deallocuvm_example =
    allocuvm-deallocuvm end_symbol directory 4096 8192 (spare ∷ []) one_page (omega arith)
      (omega arith) (omega arith) one_page-Space (λ q lo hi. rest_absent q (omega arith) lo)

freevm_lem_example :
    (xs' : List ℕ) × (s' : Kmem) × (freevm end_symbol directory one_page ≡ ok s')
    × Freed end_symbol directory (spare ∷ []) one_page xs' s'
freevm_lem_example =
    freevm_lem end_symbol directory (spare ∷ []) one_page (omega arith) one_page-Space

one_page-Sized : Sized directory 4096 one_page
unfolding entry
one_page-Sized q h = elim (ℕ_discrete q 0) [
  | yes e ↦ ap (λ k. is_present (entry directory one_page k)) e ∙ (ground arith)
  | no ne ↦ ap is_present (entry_zero q (omega arith) ne) ∙ (ground arith)
]

-- By 6000 bytes, which takes a page more, with one page free.
growproc_lem_example :
    Resized end_symbol directory 4096 6000 (growproc end_symbol directory 4096 6000 one_page)
growproc_lem_example =
    growproc_lem end_symbol directory 4096 6000 (spare ∷ []) one_page (omega arith) (omega arith)
      (omega arith) (omega arith) one_page-Space one_page-Sized

growproc-zero_example :
    (xs' : List ℕ) × (s' : Kmem) × (growproc end_symbol directory 4096 (2 ^ 32 - 4096) one_page
      ≡ ok (false, 4096, s'))
    × Space end_symbol directory xs' s'
    × Sized directory 0 s'
growproc-zero_example =
    growproc-zero end_symbol directory 4096 (spare ∷ []) one_page (omega arith) (omega arith)
      (omega arith) one_page-Space one_page-Sized
