-- ===== src/Kalloc/Init.antt =====
-- kinit of kernel/kalloc.c: what the allocator holds after boot.
use native.Mathlib.Decide.{dec_le}
use os_spring.Prelude.{
  ℕ, zero, suc, ◌+◌, ◌-◌, ◌*◌, ◌/◌, ◌%◌, ◌^◌, ◌≤◌, ◌<◌, ◌≡◌, ◌⊎◌, inl, inr, refl, ◌∙◌, List, [],
  ◌∷◌, arith, All, All-map, ok,
}
use os_spring.Kalloc.{
  Kmem, pgsize, phystop, pgroundup, update, fill, refindex, kfree, freerange, freerange_from,
  krefinit, krefinit_from, kinit,
}
use os_spring.Kalloc.Index.{IsPage, refindex_injective}
use os_spring.Kalloc.Invariant.{FreeList, IsValid}

-- The list after `m` pages from `p` on have been freed, the last one at its head.
pages : ℕ → ℕ → List ℕ → List ℕ
pages zero p acc = acc
pages (suc m) p acc = pages m (p + pgsize) (p ∷ acc)

abbrev pub Listed : ℕ → List ℕ → Type 0
Listed q [] = ⊥
Listed q (p ∷ ps) = (q ≡ p) ⊎ Listed q ps

module _ (kend : ℕ) where
  -- No counter of a page from `p` on is set.
  abbrev Unused : ℕ → (ℕ → ℕ) → Type 0
  Unused p ref = (q : ℕ) → IsPage kend q → p ≤ q → ref (refindex kend q) ≡ 0

  abbrev after_free : ℕ → Kmem → Kmem
  after_free p k = record {
    freelist = p ∷ k.freelist;
    ref = update k.ref (refindex kend p) (2 ^ 64 - 1);
    mem = fill k.mem p 1 pgsize;
  }

  -- The first kfree of a page at boot takes its counter below 0, and lists it.
  first :
      (p : ℕ) (k : Kmem)
      → p % pgsize ≡ 0
      → kend ≤ p
      → p < phystop
      → Unused p k.ref
      → kfree kend p k ≡ ok (after_free p k)
  unfolding kfree
  first p k a b c u = ground (arith, u p (a, b, c) (omega arith))

  later :
      (p : ℕ) (k : Kmem)
      → p % pgsize ≡ 0
      → kend ≤ p
      → p < phystop
      → Unused p k.ref
      → Unused (p + pgsize) (after_free p k).ref
  later p k a b c u q hq h =
      ground (arith, refindex_injective kend p q (a, b, c) hq, u q hq (omega arith))

  freerange_from_lem :
      (n m p : ℕ) (k : Kmem)
      → p % pgsize ≡ 0
      → kend ≤ p
      → p + m * pgsize ≡ phystop
      → m < n
      → Unused p k.ref
      → (k' : Kmem) × (freerange_from kend n p phystop k ≡ ok k')
        × (k'.freelist ≡ pages m p k.freelist)
  unfolding freerange_from pages
  freerange_from_lem zero m p k a b e h u = absurd (omega arith)
  freerange_from_lem (suc n) zero p k a b e h u = (k, ground arith, refl)
  freerange_from_lem (suc n) (suc m) p k a b e h u =
      let rest =
        freerange_from_lem n m (p + pgsize) (after_free p k) (omega arith) (omega arith)
          (omega arith) (omega arith) (later p k a b (omega arith) u) in
      (rest.0, ground (arith, first p k a b (omega arith) u, rest.1), rest.2)

  krefinit_from_lem :
      (n m p : ℕ) (k : Kmem)
      → p % pgsize ≡ 0
      → kend ≤ p
      → p + m * pgsize ≡ phystop
      → m < n
      → (k' : Kmem) × (krefinit_from kend n p phystop k ≡ ok k')
        × (k'.freelist ≡ k.freelist)
        × ((i : ℕ) → k.ref i ≡ 0 → k'.ref i ≡ 0)
        × Unused p k'.ref
  unfolding krefinit_from
  krefinit_from_lem zero m p k a b e h = absurd (omega arith)
  krefinit_from_lem (suc n) zero p k a b e h =
      (k, ground arith, refl, λ i z. z, λ q hq pq. absurd (omega arith))
  krefinit_from_lem (suc n) (suc m) p k a b e h =
      let (k', r, l, z, u) =
        krefinit_from_lem n m (p + pgsize) (record k { ref = update k.ref (refindex kend p) 0 })
          (omega arith) (omega arith) (omega arith) (omega arith) in
      (
        k',
        ground (arith, r),
        l,
        λ i e₀. z i (ground arith),
        λ q hq pq. elim (dec_le (p + pgsize) q) [
          | yes far ↦ u q hq far
          | no near ↦ let same : q ≡ p = omega arith in rw same (z (refindex kend p) (ground arith))
        ],
      )

  pages-FreeList :
      (m p : ℕ) (ref : ℕ → ℕ) (acc : List ℕ)
      → p % pgsize ≡ 0
      → kend ≤ p
      → p + m * pgsize ≡ phystop
      → ((q : ℕ) → IsPage kend q → ref (refindex kend q) ≡ 0)
      → All (λ q. q < p) acc
      → FreeList kend ref acc
      → FreeList kend ref (pages m p acc)
  unfolding pages
  pages-FreeList zero p ref acc a b e z lt f = f
  pages-FreeList (suc m) p ref acc a b e z lt f =
      pages-FreeList m (p + pgsize) ref (p ∷ acc) (omega arith) (omega arith) (omega arith) z
        (omega arith, All-map acc (λ q h. omega arith) lt)
        ((a, b, omega arith), z p (a, b, omega arith), All-map acc (λ q h. omega arith) lt, f)

  pages_keep : (m p q : ℕ) (acc : List ℕ) → Listed q acc → Listed q (pages m p acc)
  unfolding pages
  pages_keep zero p q acc h = h
  pages_keep (suc m) p q acc h = pages_keep m (p + pgsize) q (p ∷ acc) (inr h)

  pages_complete :
      (m p q : ℕ) (acc : List ℕ)
      → p % pgsize ≡ 0
      → q % pgsize ≡ 0
      → p ≤ q
      → q < p + m * pgsize
      → Listed q (pages m p acc)
  unfolding pages
  pages_complete zero p q acc a b h lt = absurd (omega arith)
  pages_complete (suc m) p q acc a b h lt = elim (dec_le (p + pgsize) q) [
    | yes far ↦ pages_complete m (p + pgsize) q (p ∷ acc) (omega arith) b far (omega arith)
    | no near ↦ pages_keep m (p + pgsize) q (p ∷ acc) (inl (omega arith))
  ]

-- After boot, with the kernel's image ending below PHYSTOP: kinit neither panics nor runs on, the
-- allocator is valid, and every whole page between the end of the kernel and PHYSTOP is free.
pub kinit-IsValid :
    (kend : ℕ) (mem : ℕ → ℕ)
    → kend ≤ phystop
    → (k : Kmem) × (kinit kend mem ≡ ok k)
      × IsValid kend k
      × ((q : ℕ) → IsPage kend q → Listed q k.freelist)
unfolding kinit freerange krefinit
kinit-IsValid kend mem h =
    let p = pgroundup kend in
    let m = (phystop - pgroundup kend) / pgsize in
    let k₀ : Kmem = record { freelist = []; ref = λ _. 0; mem = mem } in
    let f =
      freerange_from_lem kend (suc (phystop / pgsize)) m p k₀ (omega arith) (omega arith)
        (omega arith) (omega arith) (λ q hq pq. refl) in
    let g =
      krefinit_from_lem kend (suc (phystop / pgsize)) m p f.0 (omega arith) (omega arith)
        (omega arith) (omega arith) in
    (
      g.0,
      rw (f.1) g.1,
      rw (g.2 ∙ f.2) (
          pages-FreeList kend m p g.0.ref [] (omega arith) (omega arith) (omega arith)
            (λ q hq. g.4 q hq (omega arith)) tt tt),
      λ q hq.
          rw (g.2 ∙ f.2)
            (pages_complete kend m p q [] (omega arith) hq.0 (omega arith) (omega arith)),
    )
