-- ===== src/Kalloc/Surplus.antt =====
-- A page of kernel/kalloc.c whose counter is raised once more after kalloc.
use os_spring.Prelude.{ℕ, ◌+◌, ◌-◌, ◌%◌, ◌^◌, ◌≡◌, ◌≢◌, refl, sym, subst, some, arith, All, ok}
use os_spring.Kalloc.{Kmem, update, refindex, kalloc, kfree, inckref, deckref}
use os_spring.Kalloc.Index.{IsPage, refindex_injective}
use os_spring.Kalloc.Invariant.{IsValid, Allocates, kalloc-IsValid}

pub kfree-inckref_new :
    (kend : ℕ) (k k' : Kmem) (p pa : ℕ)
    → IsValid kend k
    → kalloc kend k ≡ (some p, k')
    → IsPage kend pa
    → p ≢ pa
    → (k'' : Kmem) × (kfree kend p (inckref kend p (deckref kend pa k')) ≡ ok k'')
      × (k''.freelist ≡ k'.freelist)
      × All (λ q. q ≢ p) k''.freelist
unfolding kfree inckref deckref
kfree-inckref_new kend k k' p pa v e page ne =
    let (a, v') = kalloc-IsValid kend k v in
    let (eq, new, off, one, _, _, _) = subst (Allocates kend k) e a in
    let apart : refindex kend pa ≢ refindex kend p =
      λ same. ne (sym (refindex_injective kend pa p page new same)) in
    let k₁ = inckref kend p (deckref kend pa k') in
    let count = k₁.ref (refindex kend p) in
    let two : count ≡ 2 = ground (arith, apart, one) in
    (
      record k₁ { ref = update k₁.ref (refindex kend p) ((count + 2 ^ 64 - 1) % 2 ^ 64) },
      ground (arith, new, two),
      refl,
      off,
    )
