-- ===== src/Vm/Kernel.antt =====
-- The allocator of kernel/kalloc.c as the one that kernel/vm.c works with.
use os_spring.Prelude.{ℕ, ◌%◌, ◌≡◌, ◌≢◌, refl, subst, Option, some, All}
use os_spring.Kalloc.{Kmem, kalloc, kfree, inckref, deckref}
use os_spring.Kalloc.Invariant.{IsValid, Allocates, kalloc-IsValid, kalloc_none}
use os_spring.Vm.{Pages, pgsize}

module _ (kend : ℕ) where
  -- A page is in use if it is not on the free list.
  abbrev OffList : Kmem → ℕ → Type 0
  OffList k p = All (λ q. q ≢ p) k.freelist

  pub takes :
      (k k' : Kmem) (p : ℕ)
      → IsValid kend k
      → kalloc kend k ≡ (some p, k')
      → IsValid kend k'
        × ¬ OffList k p
        × OffList k' p
        × (p % pgsize ≡ 0)
        × ((q : ℕ) → OffList k q → OffList k' q)
  takes k k' p v e =
      let (a, v') = kalloc-IsValid kend k v in
      let (eq, page, off, _, _, _, _) = subst (Allocates kend k) e a in
      (
        subst (λ (r : Option ℕ × Kmem). IsValid kend r.1) e v',
        λ h. (subst (All (λ q. q ≢ p)) eq h).0 refl,
        off,
        page.0,
        λ q h. (subst (All (λ x. x ≢ q)) eq h).1,
      )

  abbrev pub kernel_pages : Pages
  kernel_pages = record {
    State = Kmem;
    kalloc = kalloc kend;
    kfree = kfree kend;
    inckref = inckref kend;
    deckref = deckref kend;
    IsValid = IsValid kend;
    InUse = OffList;
    empty = λ k k' e. kalloc_none kend k.freelist k.ref k.mem k' e;
    fresh = takes;
  }
