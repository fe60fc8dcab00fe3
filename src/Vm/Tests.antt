-- ===== src/Vm/Tests.antt =====
-- Runs of kernel/vm.c on an empty page table, with two pages free.
use os_spring.Prelude.{
  ℕ, ◌+◌, ◌*◌, ◌/◌, ◌<◌, ◌≡◌, refl, subst, [], ◌∷◌, Bool, true, false, ◌&&◌, some, arith, ◌==◌,
  if◌then◌else◌, ok,
}
use os_spring.Kalloc.{Kmem, kernbase, refindex}
use os_spring.Kalloc.Invariant.{IsValid}
use os_spring.Vm.{
  Vm, Flags, Pte, no_flags, no_pte, pgsize, maxva, px2, px1, px0, mappages, walkaddr, uvmunmap,
}
use os_spring.Vm.Kernel.{kernel_pages}
use os_spring.Vm.Tree.{Place, top, mid, low, other, mapping}
use os_spring.Vm.Rounds.{Tree}
use os_spring.Vm.Maps.{Maps, mappages-Maps}
use os_spring.Vm.Lookup.{walkaddr_lem, uvmunmap_lem, without_pages}
use os_spring.Vm.Copy.{copyin}
use os_spring.Vm.Copy.In.{Copied, copyin-Copied}

abbrev image_end : ℕ
image_end = kernbase + 8192

abbrev page_at : ℕ → ℕ
page_at i = kernbase + 8192 + i * pgsize

abbrev two_free : Kmem
two_free = record { freelist = page_at 0 ∷ page_at 1 ∷ []; ref = λ _. 0; mem = λ _. 0 }

two_free-IsValid : IsValid image_end two_free
unfolding refindex
two_free-IsValid = (
  (refl, omega arith, omega arith),
  refl,
  ((λ e. absurd (omega (arith, e))), tt),
  ((refl, omega arith, omega arith), refl, tt, tt),
)

-- The root of the page table is in use.
abbrev root : ℕ
root = page_at 2

abbrev places : ℕ → Place
places p = if p == root then top else other

abbrev empty_table : Vm (kernel_pages image_end)
empty_table = record { pages = two_free; table = λ _ _. no_pte; mem = λ _. 7 }

empty_table-Tree : Tree (kernel_pages image_end) root places empty_table
empty_table-Tree = record {
  places = record { at_root = refl; at_child = λ p i h v. cc v };
  used = λ p h. (λ e. ground (arith, h, e), (λ e. ground (arith, h, e), tt));
  valid = two_free-IsValid;
}

mappages-Maps_example :
    Maps
      (kernel_pages image_end)
      root
      (record no_flags { r = true; u = true })
      1
      4096
      (page_at 4)
      empty_table
      (mappages
        (kernel_pages image_end)
        root
        4096
        (1 * pgsize)
        (page_at 4)
        (record no_flags { r = true; u = true })
        empty_table)
mappages-Maps_example =
    mappages-Maps (kernel_pages image_end) root (record no_flags { r = true; u = true }) 0 4096
      (page_at 4) places empty_table empty_table-Tree refl (omega arith) (λ va h h'. refl)

-- The same with an entry for a user page in place, below two tables.
abbrev flags_of : Bool → Bool → Flags
flags_of r u = record { v = true; r = r; w = false; x = false; u = u; cow = false }

abbrev entry : ℕ → Bool → Pte
entry p user = record { ppn = p / pgsize; flags = flags_of user user }

abbrev three_levels : Vm (kernel_pages image_end)
three_levels = record {
  pages = two_free;
  table = λ p i.
      if p == root && i == 0
      then entry (page_at 3) false
      else if p == page_at 3 && i == 0
      then entry (page_at 4) false
      else if p == page_at 4 && i == 1
      then entry (page_at 5) true
      else no_pte;
  mem = λ a. if a == page_at 5 + 9 then 42 else 7;
}

abbrev three_places : ℕ → Place
three_places p =
    if p == root
    then top
    else if p == page_at 3
    then mid 0
    else if p == page_at 4
    then low 0 0
    else other

three_levels-Tree : Tree (kernel_pages image_end) root three_places three_levels
three_levels-Tree = record {
  places = record { at_root = refl; at_child = λ p i h v. ground (arith, h, v) };
  used = λ p h. (λ e. ground (arith, h, e), (λ e. ground (arith, h, e), tt));
  valid = two_free-IsValid;
}

uvmunmap_lem_example :
    (s' : Vm (kernel_pages image_end)) × (uvmunmap
        (kernel_pages image_end)
        root
        4096
        1
        false
        three_levels
      ≡ ok s')
    × Tree (kernel_pages image_end) root three_places s'
    × ((a : ℕ)
        → a < maxva
        → mapping root s'.table a ≡ without_pages (mapping root three_levels.table) 4096 1 a)
uvmunmap_lem_example =
    uvmunmap_lem (kernel_pages image_end) root three_places 1 4096 three_levels three_levels-Tree
      refl (omega arith)
      (λ va h h'.
        let first : px2 va ≡ 0 = omega arith in
        let second : px1 va ≡ 0 = omega arith in
        let third : px0 va ≡ 1 = omega arith in
        (entry (page_at 5) true, rw (first, second, third) refl, refl))

-- User page 1 stands at the physical page 5.
abbrev at_page : ℕ → ℕ
at_page n = page_at 5

walkaddr_third : walkaddr (kernel_pages image_end) root 4096 three_levels ≡ ok (some (page_at 5))
walkaddr_third =
    walkaddr_lem (kernel_pages image_end) root three_places three_levels three_levels-Tree 4096

copyin-Copied_example :
    (mem' : ℕ → ℕ) × (copyin (kernel_pages image_end) root 100 4105 2 three_levels
      ≡ ok (true, mem'))
    × Copied (kernel_pages image_end) root at_page 100 4105 2 three_levels.mem mem'
copyin-Copied_example =
    copyin-Copied (kernel_pages image_end) root at_page 100 4105 2 three_levels
      (λ i h.
        subst
          (λ (a : ℕ). walkaddr (kernel_pages image_end) root a three_levels ≡ ok (some (page_at 5)))
          (omega arith) walkaddr_third)
      (λ i j h h' e. absurd (omega (arith, e)))
