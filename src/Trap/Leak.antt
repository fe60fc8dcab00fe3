-- ===== src/Trap/Leak.antt =====
-- The counter of the page that usertrap in kernel/trap.c copies to: it counts one user too many.
use os_spring.Prelude.{ℕ, ◌<◌, ◌≡◌, ◌≢◌, ap, ◌∙◌, true, false, some, All, ok}
use os_spring.Kalloc.{Kmem, kalloc, kfree}
use os_spring.Kalloc.Surplus.{kfree-inckref_new}
use os_spring.Kalloc.Index.{IsPage}
use os_spring.Vm.{Vm, Pte, pte2pa, maxva}
use os_spring.Vm.Kernel.{kernel_pages}
use os_spring.Vm.Tree.{Place, mapping}
use os_spring.Vm.Rounds.{Tree}
use os_spring.Trap.{store_fault}
use os_spring.Trap.Cow.{store_fault-Copied}

-- A store to a copy-on-write page, under the conditions of store_fault-Copied and with the old page
-- another than the new one, leaves the new page with one reference too many: kfree of it, by the only
-- process that has it, does not put it on the free list.
pub kfree-store_fault :
    (kend root stval p : ℕ) (e : Pte) (k' : Kmem) (place : ℕ → Place) (s : Vm (kernel_pages kend))
    → Tree (kernel_pages kend) root place s
    → stval < maxva
    → mapping root s.table stval ≡ some e
    → (e.flags.u ≡ true) × (e.flags.cow ≡ true)
    → kalloc kend s.pages ≡ (some p, k')
    → IsPage kend (pte2pa e)
    → p ≢ pte2pa e
    → (s' : Vm (kernel_pages kend)) × (k'' : Kmem) × (store_fault (kernel_pages kend) root stval s
        ≡ ok (false, s'))
      × (kfree kend p s'.pages ≡ ok k'')
      × All (λ q. q ≢ p) k''.freelist
kfree-store_fault kend root stval p e k' place s tree h mapped marks got page ne =
    let (s', run, c) =
      store_fault-Copied (kernel_pages kend) root stval p e k' place s tree h mapped marks got in
    let (k'', freed, _, off) =
      kfree-inckref_new kend s.pages k' p (pte2pa e) tree.valid got page ne in
    (s', k'', run, ap (kfree kend p) c.counts ∙ freed, off)
