-- ===== src/Kalloc/Invariant.antt =====
-- The invariant of the allocator of kernel/kalloc.c, kept by kalloc, kfree, inckref, deckref.
use native.Mathlib.Decide.{dec_lt}
use os_spring.Prelude.{
  sym, ◌∙◌, ap, fun_ext, ℕ, ◌+◌, ◌-◌, ◌^◌, ◌≤◌, ◌<◌, ◌≡◌, ◌≢◌, refl, List, [], ◌∷◌, Option, none,
  some, arith, All, ok,
}
use os_spring.Kalloc.{Kmem, pgsize, update, fill, refindex, kalloc, kfree, inckref}
use os_spring.Kalloc.Index.{IsPage, refindex_injective}

-- Every page of the list is a page with counter 0, and none is listed twice.
abbrev pub FreeList : ℕ → (ℕ → ℕ) → List ℕ → Type 0
FreeList kend ref [] = Unit {0}
FreeList kend ref (p ∷ ps) =
    IsPage kend p × (ref (refindex kend p) ≡ 0) × All (λ q. q ≢ p) ps × FreeList kend ref ps

abbrev pub IsValid : ℕ → Kmem → Type 0
IsValid kend k = FreeList kend k.ref k.freelist

-- A page whose counter is not 0 is not listed.
not_listed :
    (kend : ℕ) (ref : ℕ → ℕ) (p : ℕ) (ps : List ℕ)
    → FreeList kend ref ps
    → ref (refindex kend p) ≢ 0
    → All (λ q. q ≢ p) ps
not_listed kend ref p [] v h = tt
not_listed kend ref p (q ∷ ps) v h = (cc', not_listed kend ref p ps v.3 h)
  where
    cc' : q ≢ p
    cc' e = h (rw (← e) v.1)

-- Writing the counter of a page off the list leaves the list valid.
FreeList-update :
    (kend : ℕ) (ref : ℕ → ℕ) (p v : ℕ) (ps : List ℕ)
    → IsPage kend p
    → All (λ q. q ≢ p) ps
    → FreeList kend ref ps
    → FreeList kend (update ref (refindex kend p) v) ps
FreeList-update kend ref p v [] hp off h = tt
FreeList-update kend ref p v (q ∷ ps) hp off h = (
  h.0,
  ground (arith, refindex_injective kend p q, off.0, h.1),
  h.2,
  FreeList-update kend ref p v ps hp off.1 h.3,
)

-- Writing a counter to 0 keeps the list valid wherever it is.
FreeList-update_zero :
    (kend : ℕ) (ref : ℕ → ℕ) (i : ℕ) (ps : List ℕ)
    → FreeList kend ref ps
    → FreeList kend (update ref i 0) ps
FreeList-update_zero kend ref i [] h = tt
FreeList-update_zero kend ref i (q ∷ ps) h =
    (h.0, ground (arith, h.1), h.2, FreeList-update_zero kend ref i ps h.3)

-- When kalloc answers null it has changed nothing, whatever the state.
pub kalloc_none :
    (kend : ℕ) (l : List ℕ) (ref mem : ℕ → ℕ) (k' : Kmem)
    → let k : Kmem = record { freelist = l; ref = ref; mem = mem } in
      kalloc kend k ≡ (none, k') → k' ≡ k
unfolding kalloc
kalloc_none kend [] ref mem k' e = ap (λ (r : Option ℕ × Kmem). r.1) (sym e)
kalloc_none kend (p ∷ l) ref mem k' e = cc (ap (λ (r : Option ℕ × Kmem). r.0) e)

-- What kalloc may answer from `k`.
abbrev pub Allocates : ℕ → Kmem → Option ℕ × Kmem → Type 0
Allocates kend k (none, k') = (k.freelist ≡ []) × (k' ≡ k)
Allocates kend k (some p, k') =
    (k.freelist ≡ p ∷ k'.freelist)
    × IsPage kend p
    × All (λ q. q ≢ p) k'.freelist
    × (k'.ref (refindex kend p) ≡ 1)
    × ((j : ℕ) → j ≢ refindex kend p → k'.ref j ≡ k.ref j)
    × ((a : ℕ) → p ≤ a → a < p + pgsize → k'.mem a ≡ 5)
    × ((a : ℕ) → ¬ ((p ≤ a) × (a < p + pgsize)) → k'.mem a ≡ k.mem a)

-- kalloc keeps the invariant. When a page is free it takes the head of the free list, which is
-- then no longer listed, sets its counter to 1 and its bytes to 5, and changes no other counter
-- and no other byte. It answers null only when the free list is empty, and then changes nothing.
pub kalloc-IsValid :
    (kend : ℕ) (k : Kmem)
    → IsValid kend k
    → Allocates kend k (kalloc kend k) × IsValid kend (kalloc kend k).1
unfolding kalloc
kalloc-IsValid kend k v = go k.freelist k.ref k.mem v
  where
    go :
        (l : List ℕ) (ref mem : ℕ → ℕ)
        → FreeList kend ref l
        → let k : Kmem = record { freelist = l; ref = ref; mem = mem } in
          Allocates kend k (kalloc kend k) × IsValid kend (kalloc kend k).1
    go [] ref mem f = ((refl, refl), tt)
    go (p ∷ ps) ref mem f = (
      (
        refl,
        f.0,
        f.2,
        ground (arith, f.1),
        λ j h. ground arith,
        λ a h h'. ground arith,
        λ a h. ground (arith, h),
      ),
      FreeList-update kend ref p _ ps f.0 f.2 f.3,
    )

module _ (kend : ℕ) (k : Kmem) (pa : ℕ) (v : IsValid kend k) (page : IsPage kend pa) where
  -- kfree of a page with more than one reference only lowers its counter by one: the page stays
  -- off the free list and no byte changes.
  kfree_shared :
      1 < k.ref (refindex kend pa)
      → k.ref (refindex kend pa) < 2 ^ 64
      → kfree kend pa k
        ≡ ok (record k { ref = update k.ref (refindex kend pa) (k.ref (refindex kend pa) - 1) })
  unfolding kfree
  kfree_shared h b = ground arith

  -- kfree of a page with one reference puts it at the head of the free list.
  kfree_last :
      k.ref (refindex kend pa) ≡ 1
      → kfree kend pa k
        ≡ ok (record {
          freelist = pa ∷ k.freelist;
          ref = update k.ref (refindex kend pa) 0;
          mem = fill k.mem pa 1 pgsize;
        })
  unfolding kfree
  kfree_last h = ground arith

  -- kfree of a page that is in use never panics and keeps the invariant.
  pub kfree-IsValid :
      k.ref (refindex kend pa) ≢ 0
      → k.ref (refindex kend pa) < 2 ^ 64
      → (k' : Kmem) × (kfree kend pa k ≡ ok k') × IsValid kend k'
  kfree-IsValid h b = elim (dec_lt 1 (k.ref (refindex kend pa))) [
    | yes more ↦ (_, kfree_shared more b, FreeList-update kend k.ref pa _ k.freelist page off v)
    | no last ↦ (
      _,
      kfree_last (omega arith),
      (page, ground arith, off, FreeList-update_zero kend k.ref (refindex kend pa) k.freelist v),
    )
  ]
    where
      off : All (λ q. q ≢ pa) k.freelist
      off = not_listed kend k.ref pa k.freelist v h

  -- A page in use stays off the free list while further references are counted.
  inckref-IsValid :
      k.ref (refindex kend pa) ≢ 0
      → k.ref (refindex kend pa) + 1 < 2 ^ 64
      → IsValid kend (inckref kend pa k)
        × ((inckref kend pa k).ref (refindex kend pa) ≡ k.ref (refindex kend pa) + 1)
  unfolding inckref
  inckref-IsValid h b = (
    FreeList-update kend k.ref pa _ k.freelist page (not_listed kend k.ref pa k.freelist v h) v,
    ground arith,
  )

  -- A reference that is counted and dropped again leaves the allocator as it was.
  kfree-inckref :
      k.ref (refindex kend pa) ≢ 0
      → k.ref (refindex kend pa) + 1 < 2 ^ 64
      → kfree kend pa (inckref kend pa k) ≡ ok k
  unfolding kfree inckref
  kfree-inckref h b =
      kfree_shared' ∙ ap (λ (r : ℕ → ℕ). ok (record k { ref = r })) (fun_ext λ j. ground arith)
    where
      kfree_shared' :
          kfree kend pa (inckref kend pa k)
          ≡ ok (record k {
            ref = update (inckref kend pa k).ref (refindex kend pa) (k.ref (refindex kend pa));
          })
      kfree_shared' = ground arith
