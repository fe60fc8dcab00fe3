-- ===== src/Umalloc/Tests.antt =====
-- A free list with the base block and two more.
use os_spring.Prelude.{
  ℕ, ◌+◌, ◌-◌, ◌≡◌, refl, [], ◌∷◌, Option, none, some, arith, ◌==◌, if◌then◌else◌, ok,
}
use os_spring.Umalloc.{Heap, nunits, find_place, malloc}
use os_spring.Umalloc.Place.{Between, find_place-Between}
use os_spring.Umalloc.Fit.{Fits, malloc-Fits}

abbrev no_more : ℕ → ℕ → Option ℕ × ℕ
no_more n w = (none, w)

-- The base at 10 with no units, two units at 20 and ten at 30
abbrev heap : Heap ℕ
heap = record {
  ptr = λ a. if a == 10 then 20 else if a == 20 then 30 else 10;
  size = λ a. if a == 10 then 0 else if a == 20 then 2 else 10;
  freep = 10;
  world = 0;
}

malloc-Fits_example :
    (h' : Heap ℕ) × (malloc ℕ 10 no_more 2 48 heap ≡ ok (some (30 + (10 - nunits 48) + 1), h'))
    × Fits ℕ 10 no_more (nunits 48) 30 (20 ∷ []) [] heap h'
malloc-Fits_example =
    malloc-Fits ℕ 10 no_more 2 48 30 (20 ∷ []) [] heap (λ e. omega (arith, e))
      (
        (refl, (refl, refl)),
        (
          ((λ e. omega (arith, e)), ((λ e. omega (arith, e)), tt)),
          (((λ e. omega (arith, e)), tt), (tt, tt)),
        ),
      )
      (omega arith, tt) (omega arith) (omega arith)

-- A block at 25, between the two.
find_place-Between_example :
    (p : ℕ) × (find_place ℕ 10 no_more 4 25 10 heap ≡ ok p) × Between heap.ptr 25 p
find_place-Between_example =
    find_place-Between ℕ 10 no_more 25 heap 4 (20 ∷ (30 ∷ [])) [] (refl, (refl, refl))
      (omega arith, (omega arith, tt)) tt (λ e. omega (arith, e))
      ((λ e. omega (arith, e)), ((λ e. omega (arith, e)), tt)) tt (omega arith)
