-- ===== src/Trap/Tests.antt =====
-- A store to a copy-on-write page, with one page free.
use os_spring.Prelude.{
  ℕ, ◌+◌, ◌*◌, ◌/◌, ◌≡◌, ◌≢◌, refl, [], ◌∷◌, true, false, ◌&&◌, some, arith, All, ◌==◌,
  if◌then◌else◌, ok,
}
use os_spring.Kalloc.{Kmem, kernbase, refindex, kalloc, kfree}
use os_spring.Kalloc.Invariant.{IsValid}
use os_spring.Vm.{Vm, Pte, no_flags, no_pte, pgsize}
use os_spring.Vm.Kernel.{kernel_pages}
use os_spring.Vm.Tree.{Place, top, mid, low, other, mapping}
use os_spring.Vm.Rounds.{Tree}
use os_spring.Trap.{store_fault}
use os_spring.Trap.Cow.{Copied, store_fault-Copied}
use os_spring.Trap.Leak.{kfree-store_fault}

abbrev image_end : ℕ
image_end = kernbase + 8192

abbrev page_at : ℕ → ℕ
page_at i = kernbase + 8192 + i * pgsize

abbrev one_free : Kmem
one_free = record { freelist = page_at 0 ∷ []; ref = λ i. if i == 0 then 0 else 1; mem = λ _. 0 }

one_free-IsValid : IsValid image_end one_free
unfolding refindex
one_free-IsValid = ((refl, omega arith, omega arith), refl, tt, tt)

abbrev root : ℕ
root = page_at 2

abbrev inner_entry : ℕ → Pte
inner_entry p = record { ppn = p / pgsize; flags = record no_flags { v = true } }

-- A page of the user that is shared.
abbrev shared_entry : Pte
shared_entry = record {
  ppn = page_at 5 / pgsize;
  flags = record { v = true; r = true; w = false; x = false; u = true; cow = true };
}

abbrev tables : Vm (kernel_pages image_end)
tables = record {
  pages = one_free;
  table = λ p i.
      if p == root && i == 0
      then inner_entry (page_at 3)
      else if p == page_at 3 && i == 0
      then inner_entry (page_at 4)
      else if p == page_at 4 && i == 1
      then shared_entry
      else no_pte;
  mem = λ a. if a == page_at 5 + 9 then 42 else 7;
}

abbrev places : ℕ → Place
places p =
    if p == root
    then top
    else if p == page_at 3
    then mid 0
    else if p == page_at 4
    then low 0 0
    else other

tables-Tree : Tree (kernel_pages image_end) root places tables
tables-Tree = record {
  places = record { at_root = refl; at_child = λ p i h v. ground (arith, h, v) };
  used = λ p h. ((λ e. ground (arith, h, e)), tt);
  valid = one_free-IsValid;
}

mapped : mapping root tables.table 4200 ≡ some shared_entry
mapped = refl

abbrev taken : Kmem
taken = (kalloc image_end one_free).1

got : kalloc image_end one_free ≡ (some (page_at 0), taken)
unfolding kalloc
got = refl

store_fault-Copied_example :
    (s' : Vm (kernel_pages image_end)) × (store_fault (kernel_pages image_end) root 4200 tables
      ≡ ok (false, s'))
    × Copied (kernel_pages image_end) root 4200 (page_at 0) shared_entry taken places tables s'
store_fault-Copied_example =
    store_fault-Copied (kernel_pages image_end) root 4200 (page_at 0) shared_entry taken places
      tables tables-Tree (omega arith) mapped (refl, refl) got

kfree-store_fault_example :
    (s' : Vm (kernel_pages image_end)) × (k'' : Kmem) × (store_fault
        (kernel_pages image_end)
        root
        4200
        tables
      ≡ ok (false, s'))
    × (kfree image_end (page_at 0) s'.pages ≡ ok k'')
    × All (λ q. q ≢ page_at 0) k''.freelist
kfree-store_fault_example =
    kfree-store_fault image_end root 4200 (page_at 0) shared_entry taken places tables tables-Tree
      (omega arith) mapped (refl, refl) got (refl, omega arith, omega arith) (λ e. omega (arith, e))
