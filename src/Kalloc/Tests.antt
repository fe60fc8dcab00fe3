-- ===== src/Kalloc/Tests.antt =====
-- Runs of the allocator of kernel/kalloc.c on a memory of few pages in use.
use os_spring.Prelude.{ℕ, ◌+◌, ◌≡◌, refl, [], ◌∷◌, if◌then◌else◌, ◌==◌, arith, ok}
use os_spring.Kalloc.{Kmem, kernbase, refindex, kfree, kalloc, kinit}
use os_spring.Kalloc.Index.{IsPage}
use os_spring.Kalloc.Invariant.{IsValid, Allocates, kalloc-IsValid, kfree-IsValid}
use os_spring.Kalloc.Init.{Listed, kinit-IsValid}

abbrev image_end : ℕ
image_end = kernbase + 8192

abbrev free_page : ℕ
free_page = kernbase + 8192

abbrev used_page : ℕ
used_page = kernbase + 12288

-- One page is free, and one is in use twice.
abbrev two_pages : Kmem
two_pages = record { freelist = free_page ∷ []; ref = λ j. if j == 1 then 2 else 0; mem = λ _. 0 }

free_page-IsPage : IsPage image_end free_page
free_page-IsPage = (refl, omega arith, omega arith)

used_page-IsPage : IsPage image_end used_page
used_page-IsPage = (refl, omega arith, omega arith)

two_pages-IsValid : IsValid image_end two_pages
unfolding refindex
two_pages-IsValid = (free_page-IsPage, refl, tt, tt)

used_page-ref : two_pages.ref (refindex image_end used_page) ≡ 2
unfolding refindex
used_page-ref = refl

kalloc-IsValid_example :
    Allocates image_end two_pages (kalloc image_end two_pages)
    × IsValid image_end (kalloc image_end two_pages).1
kalloc-IsValid_example = kalloc-IsValid image_end two_pages two_pages-IsValid

kfree-IsValid_example :
    (k' : Kmem) × (kfree image_end used_page two_pages ≡ ok k') × IsValid image_end k'
kfree-IsValid_example =
    kfree-IsValid image_end two_pages used_page two_pages-IsValid used_page-IsPage
      (omega (arith, used_page-ref)) (omega (arith, used_page-ref))

kinit-IsValid_example :
    (k : Kmem) × (kinit image_end (λ _. 7) ≡ ok k)
    × IsValid image_end k
    × ((q : ℕ) → IsPage image_end q → Listed q k.freelist)
kinit-IsValid_example = kinit-IsValid image_end (λ _. 7) (omega arith)
