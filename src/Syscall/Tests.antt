-- ===== src/Syscall/Tests.antt =====
-- A word of a process that has one page.
use os_spring.Prelude.{
  ℕ, ◌+◌, ◌*◌, ◌/◌, ◌≤◌, ◌<◌, ◌≡◌, ◌⊎◌, refl, subst, [], true, ◌&&◌, some, arith, pos, negsuc, ◌==◌,
  if◌then◌else◌, ok,
}
use os_spring.Cstring.{Mem}
use os_spring.Kalloc.{kernbase}
use os_spring.Vm.{Vm, Pte, no_flags, no_pte, pgsize, walkaddr}
use os_spring.Vm.Kernel.{kernel_pages}
use os_spring.Vm.Tree.{Place, top, mid, low, other}
use os_spring.Vm.Rounds.{Tree}
use os_spring.Vm.Lookup.{walkaddr_lem}
use os_spring.Vm.Copy.In.{Copied}
use os_spring.Syscall.{fetchaddr}
use os_spring.Syscall.Arguments.{fetchaddr-Copied}

abbrev image_end : ℕ
image_end = kernbase + 8192

abbrev page_at : ℕ → ℕ
page_at i = kernbase + 8192 + i * pgsize

abbrev root : ℕ
root = page_at 0

abbrev inner_entry : ℕ → Pte
inner_entry p = record { ppn = p / pgsize; flags = record no_flags { v = true } }

abbrev tables : Vm (kernel_pages image_end)
tables = record {
  pages = record { freelist = []; ref = λ _. 1; mem = λ _. 0 };
  table = λ p i.
      if p == root && i == 0
      then inner_entry (page_at 1)
      else if p == page_at 1 && i == 0
      then inner_entry (page_at 2)
      else if p == page_at 2 && i == 0
      then record {
        ppn = page_at 3 / pgsize;
        flags = record no_flags { v = true; r = true; u = true };
      }
      else no_pte;
  mem = λ a. if a == page_at 3 + 8 then 42 else 7;
}

abbrev places : ℕ → Place
places p =
    if p == root
    then top
    else if p == page_at 1
    then mid 0
    else if p == page_at 2
    then low 0 0
    else other

tables-Tree : Tree (kernel_pages image_end) root places tables
tables-Tree = record {
  places = record { at_root = refl; at_child = λ p i h v. ground (arith, h, v) };
  used = λ p h. tt;
  valid = tt;
}

first_page : walkaddr (kernel_pages image_end) root 0 tables ≡ ok (some (page_at 3))
first_page = walkaddr_lem (kernel_pages image_end) root places tables tables-Tree 0

abbrev at_third : ℕ → ℕ
at_third n = page_at 3

fetchaddr-Copied_example :
    ((8 + 8 ≤ 4096)
      × (mem' : Mem) × (fetchaddr (kernel_pages image_end) root 4096 8 100 tables
          ≡ ok (pos 0, mem'))
      × Copied (kernel_pages image_end) root at_third 100 8 8 tables.mem mem')
    ⊎ ((4096 < 8 + 8)
        × (fetchaddr (kernel_pages image_end) root 4096 8 100 tables ≡ ok (negsuc 0, tables.mem)))
fetchaddr-Copied_example =
    fetchaddr-Copied (kernel_pages image_end) root at_third 4096 8 100 tables (omega arith)
      (omega arith)
      (λ i h.
        subst (λ (a : ℕ). walkaddr (kernel_pages image_end) root a tables ≡ ok (some (page_at 3)))
          (omega (arith, h)) first_page)
      (λ i j h h' e. absurd (omega (arith, e, h')))
