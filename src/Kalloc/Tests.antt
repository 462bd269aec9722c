-- ===== src/Kalloc/Tests.antt =====
-- The theorems about the page allocator at concrete inputs.
use schoolstuff.Base.{ℕ, ◌≡◌, refl, false, [], ◌∷◌, arith}
use schoolstuff.Base.Outcome.{ok}
use schoolstuff.Kalloc.{Kmem, kalloc, kfree, freerange, page_round_up}
use schoolstuff.Kalloc.FreeList.{Free, kfree-kalloc}
use schoolstuff.Kalloc.Ranges.{stack_pages, whole_pages, freerange_lem}

-- A kernel that ends at 1 MB + 8 KB, and no free page.
abbrev end_symbol : ℕ
end_symbol = 0x80102000

abbrev no_pages : Kmem
no_pages = record { use_lock = false; freelist = 0; word = λ a. 0 }

abbrev page : ℕ
page = 0x80200000

kfree-kalloc_example :
    (s' : Kmem) × (kfree end_symbol page no_pages ≡ ok s')
    × ((kalloc s').0 ≡ page)
    × Free end_symbol (kalloc s').1 []
kfree-kalloc_example = kfree-kalloc end_symbol page no_pages [] refl (omega arith) refl

-- A range of two whole pages, from the middle of a page on.
freerange_lem_example :
    let p = page_round_up 0x80102800 in
    (s' : Kmem) × (freerange end_symbol 0x80102800 0x80105000 no_pages ≡ ok s')
    × Free end_symbol s' (stack_pages (whole_pages end_symbol p 0x80105000) p [])
freerange_lem_example =
    freerange_lem end_symbol 0x80102800 0x80105000 no_pages [] (omega arith) (omega arith)
      (omega arith) (omega arith) (λ a h h2. refl) refl

two_pages : stack_pages 2 (page_round_up 0x80102800) [] ≡ 0x80104000 ∷ 0x80103000 ∷ []
two_pages = refl
