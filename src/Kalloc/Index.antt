-- ===== src/Kalloc/Index.antt =====
-- refindex of kernel/kalloc.c: the counter of a page.
use os_spring.Prelude.{ℕ, ◌-◌, ◌/◌, ◌%◌, ◌≤◌, ◌<◌, ◌≡◌, arith}
use os_spring.Kalloc.{pgsize, kernbase, phystop, refindex}

-- A page that kfree accepts.
abbrev pub IsPage : ℕ → ℕ → Type 0
IsPage kend pa = (pa % pgsize ≡ 0) × (kend ≤ pa) × (pa < phystop)

-- Two pages with one counter are one page, so no count is shared.
pub refindex_injective :
    (kend p q : ℕ) → IsPage kend p → IsPage kend q → refindex kend p ≡ refindex kend q → p ≡ q
unfolding refindex
refindex_injective kend p q hp hq e = omega arith

-- The counter of a page lies inside kref.ref, which has (PHYSTOP - KERNBASE) / PGSIZE entries.
refindex_in_bounds :
    (kend p : ℕ) → kernbase ≤ kend → IsPage kend p → refindex kend p < (phystop - kernbase) / pgsize
unfolding refindex
refindex_in_bounds kend p h hp = omega arith
