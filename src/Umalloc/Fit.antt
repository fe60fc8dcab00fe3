-- ===== src/Umalloc/Fit.antt =====
-- malloc of user/umalloc.c on a list with a block that is large enough: the first fit.
use os_spring.Prelude.{
  ℕ, zero, suc, ◌+◌, ◌-◌, ◌≤◌, ◌<◌, ◌≡◌, ◌≢◌, ◌⊎◌, inl, inr, refl, ap, ◌∙◌, List, [], ◌∷◌, ◌++◌,
  true, false, Option, some, arith, All, length, leb, ◌==◌, Bool-cases, ok,
}
use os_spring.Umalloc.{Heap, store, nunits, take_block, malloc_from, malloc}

-- `ptr` leads from `a` through the blocks of the list to `b`.
abbrev pub Links : (ℕ → ℕ) → ℕ → List ℕ → ℕ → Type 0
Links ptr a [] b = ptr a ≡ b
Links ptr a (x ∷ xs) b = (ptr a ≡ x) × Links ptr x xs b

abbrev pub Distinct : List ℕ → Type 0
Distinct [] = Unit {0}
Distinct (x ∷ xs) = All (λ y. y ≢ x) xs × Distinct xs

-- The last of `a` and the blocks after it.
abbrev last_of : ℕ → List ℕ → ℕ
last_of a [] = a
last_of a (x ∷ xs) = last_of x xs

-- A free list seen from `a` with the blocks `ys`, then `x`, then `zs`.
abbrev IsRing : (ℕ → ℕ) → ℕ → List ℕ → ℕ → List ℕ → Type 0
IsRing ptr a ys x zs = Links ptr a (ys ++ x ∷ zs) a × Distinct (a ∷ (ys ++ x ∷ zs))

Links-store :
    (ptr : ℕ → ℕ) (i v x b : ℕ) (zs : List ℕ)
    → x ≢ i
    → All (λ z. z ≢ i) zs
    → Links ptr x zs b
    → Links (store ptr i v) x zs b
Links-store ptr i v x b [] ne all links = ground (arith, ne, links)
Links-store ptr i v x b (z ∷ zs) ne all links =
    (ground (arith, ne, links.0), Links-store ptr i v z b zs all.0 all.1 links.1)

last_of-All :
    (P : ℕ → Type 0) (y : ℕ) (ys rest : List ℕ) → P y → All P (ys ++ rest) → P (last_of y ys)
last_of-All P y [] rest here all = here
last_of-All P y (z ∷ ys) rest here all = last_of-All P z ys rest all.0 all.1

All-right : (P : ℕ → Type 0) (ys rest : List ℕ) → All P (ys ++ rest) → All P rest
All-right P [] rest all = all
All-right P (y ∷ ys) rest all = All-right P ys rest all.1

-- The block `x` taken off the list.
unlinked :
    (ptr : ℕ → ℕ) (a x b : ℕ) (ys zs : List ℕ)
    → Links ptr a (ys ++ x ∷ zs) b
    → Distinct (a ∷ (ys ++ x ∷ zs))
    → Links (store ptr (last_of a ys) (ptr x)) a (ys ++ zs) b
unlinked ptr a x b [] [] links distinct = ground (arith, links.1)
unlinked ptr a x b [] (z ∷ zs) links distinct = (
  ground (arith, links.1.0),
  Links-store ptr a (ptr x) z b zs distinct.0.1.0 distinct.0.1.1 links.1.1,
)
unlinked ptr a x b (y ∷ ys) zs links distinct =
    let apart : last_of y ys ≢ a =
      last_of-All (λ c. c ≢ a) y ys (x ∷ zs) distinct.0.0 distinct.0.1 in
    (ground (arith, apart, links.0), unlinked ptr y x b ys zs links.1 distinct.1)

module _ (W : Type 0) (base : ℕ) (sbrk : ℕ → W → Option ℕ × W) where
  -- The search of malloc comes to the first block that is large enough.
  malloc_from_lem :
      (k n prevp x : ℕ) (ys zs : List ℕ) (h : Heap W)
      → length ys < k
      → Links h.ptr prevp (ys ++ x ∷ zs) h.freep
      → All (λ y. (h.size y < n) × (y ≢ h.freep)) ys
      → n ≤ h.size x
      → let taken = take_block W base sbrk n (last_of prevp ys) x h in
        malloc_from W base sbrk k n prevp (h.ptr prevp) h ≡ ok (some taken.0, taken.1)
  unfolding malloc_from
  malloc_from_lem zero n prevp x ys zs h fuel links small fits = absurd (omega (arith, fuel))
  malloc_from_lem (suc k) n prevp x [] zs h fuel links small fits =
      let large : leb n (h.size x) ≡ true = ground (arith, fits) in rw (links.0, large) refl
  malloc_from_lem (suc k) n prevp x (y ∷ ys) zs h fuel links small fits =
      let less : leb n (h.size y) ≡ false = ground (arith, small.0.0) in
      let other : (y == h.freep) ≡ false = ground (arith, small.0.1) in
      rw (links.0, less, other)
        (malloc_from_lem k n y x ys zs h (omega (arith, fuel)) links.1 small.1 fits)

  -- `h'` is `h` with the last `n` units of the block `x`, of `size` units, taken.
  pub record Fits (n x : ℕ) (ys zs : List ℕ) (h h' : Heap W) : Type 0 where
    pub links :
        ((h.size x ≡ n) × Links h'.ptr h.freep (ys ++ zs) h.freep)
        ⊎ ((n < h.size x)
            × Links h'.ptr h.freep (ys ++ x ∷ zs) h.freep
            × (h'.size x ≡ h.size x - n)
            × (h'.size (x + (h.size x - n)) ≡ n))
    pub others : (y : ℕ) → y ≢ x → y ≢ x + (h.size x - n) → h'.size y ≡ h.size y
    pub rest : (h'.world ≡ h.world) × (h'.freep ≡ last_of h.freep ys)

  small_blocks :
      (n f : ℕ) (size : ℕ → ℕ) (ys rest : List ℕ)
      → All (λ y. size y < n) ys
      → All (λ y. y ≢ f) (ys ++ rest)
      → All (λ y. (size y < n) × (y ≢ f)) ys
  small_blocks n f size [] rest small apart = tt
  small_blocks n f size (y ∷ ys) rest small apart =
      ((small.0, apart.0), small_blocks n f size ys rest small.1 apart.1)

  take_block-Fits :
      (n x : ℕ) (ys zs : List ℕ) (h : Heap W)
      → IsRing h.ptr h.freep ys x zs
      → 0 < n
      → n ≤ h.size x
      → let taken = take_block W base sbrk n (last_of h.freep ys) x h in
        (taken.0 ≡ x + (h.size x - n) + 1) × Fits n x ys zs h taken.1
  unfolding take_block
  take_block-Fits n x ys zs h ring pos_n fits = elim (Bool-cases (h.size x == n)) [
    | inl exact ↦
        let same : h.size x ≡ n = ground (arith, exact) in
        rw exact (
          omega (arith, same),
          record {
            links = inl (same, unlinked h.ptr h.freep x h.freep ys zs ring.0 ring.1);
            others = λ y ne ne'. refl;
            rest = (refl, refl);
          },
        )
    | inr larger ↦ rw larger (
      refl,
      record {
        links = inr (
          ground (arith, larger, fits),
          ring.0,
          ground (arith, pos_n, fits, larger),
          ground arith,
        );
        others = λ y ne ne'. ground (arith, ne, ne');
        rest = (refl, refl);
      },
    )
  ]

  -- malloc, on a free list where `x` is the first block with room for the request, other than the one
  -- that the search begins behind: with fuel for the blocks before, it answers the last units of `x`. Where these are all of `x` it
  -- takes the block off the list, and else it leaves it there with the units that remain; no other
  -- block has changed its size or its place.
  pub malloc-Fits :
      (fuel nbytes x : ℕ) (ys zs : List ℕ) (h : Heap W)
      → h.freep ≢ 0
      → IsRing h.ptr h.freep ys x zs
      → All (λ y. h.size y < nunits nbytes) ys
      → nunits nbytes ≤ h.size x
      → length ys < fuel
      → (h' : Heap W) × (malloc W base sbrk fuel nbytes h
          ≡ ok (some (x + (h.size x - nunits nbytes) + 1), h'))
        × Fits (nunits nbytes) x ys zs h h'
  unfolding malloc
  malloc-Fits fuel nbytes x ys zs h started ring small fits enough =
      let n = nunits nbytes in
      let taken = take_block W base sbrk n (last_of h.freep ys) x h in
      let (at, f) = take_block-Fits n x ys zs h ring (omega arith) fits in
      let has_base : (h.freep == 0) ≡ false = ground (arith, started) in
      (
        taken.1,
        rw has_base (
              malloc_from_lem fuel n h.freep x ys zs h enough ring.0
                (small_blocks n h.freep h.size ys (x ∷ zs) small ring.1.0) fits)
            ∙ ap (λ (a : ℕ). ok (some a, taken.1)) at,
        f,
      )
