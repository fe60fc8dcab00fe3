-- ===== src/Umalloc/Place.antt =====
-- The search of free in user/umalloc.c ends, on a list that is in the order of addresses.
use native.Mathlib.Decide.{dec_lt}
use os_spring.Prelude.{
  ℕ, zero, suc, ◌+◌, ◌≤◌, ◌<◌, ◌≡◌, ◌≢◌, ◌⊎◌, inl, inr, sym, subst, ap, ◌∙◌, List, [], ◌∷◌, ◌++◌,
  Option, arith, All, length, Outcome, ok,
}
use os_spring.Umalloc.{Heap, find_place}
use os_spring.Umalloc.Fit.{Links}

-- Each is below the next.
abbrev Ascending : ℕ → List ℕ → Type 0
Ascending a [] = Unit {0}
Ascending a (x ∷ xs) = (a < x) × Ascending x xs

-- `bp` belongs behind `p`: it is between `p` and the next block, or `p` is the last and `bp` is above it
-- or below the first.
abbrev pub Between : (ℕ → ℕ) → ℕ → ℕ → Type 0
Between ptr bp p = ((p < bp) × (bp < ptr p)) ⊎ ((ptr p ≤ p) × ((p < bp) ⊎ (bp < ptr p)))

abbrev InOrder : List ℕ → Type 0
InOrder [] = Unit {0}
InOrder (x ∷ xs) = Ascending x xs

abbrev first_of : List ℕ → ℕ → ℕ
first_of [] b = b
first_of (x ∷ xs) b = x

Links-left :
    (ptr : ℕ → ℕ) (a b : ℕ) (xs ys : List ℕ)
    → Links ptr a (xs ++ ys) b
    → Links ptr a xs (first_of ys b)
Links-left ptr a b [] [] links = links
Links-left ptr a b [] (y ∷ ys) links = links.0
Links-left ptr a b (x ∷ xs) ys links = (links.0, Links-left ptr x b xs ys links.1)

module _ (W : Type 0) (base : ℕ) (sbrk : ℕ → W → Option ℕ × W) (bp : ℕ) (h : Heap W) where
  All-left : (e : ℕ) (xs : List ℕ) → All (λ x. (x ≢ bp) × (x < e)) xs → All (λ x. x ≢ bp) xs
  All-left e [] all = tt
  All-left e (x ∷ xs) all = (all.0.0, All-left e xs all.1)

  first_low : (e : ℕ) (xs : List ℕ) → All (λ x. (x ≢ bp) × (x < e)) xs → first_of xs e ≤ e
  first_low e [] all = omega arith
  first_low e (x ∷ xs) all = omega (arith, all.0)

  -- What the search ends with.
  abbrev pub Found : Outcome ℕ → Type 0
  Found r = (p : ℕ) × (r ≡ ok p) × Between h.ptr bp p

  stops : (k p : ℕ) → Between h.ptr bp p → Found (find_place W base sbrk (suc k) bp p h)
  unfolding find_place
  stops k p (inl (low, high)) = (p, ground (arith, low, high), inl (low, high))
  stops k p (inr (wraps, out)) = (p, ground (arith, wraps, out), inr (wraps, out))

  goes_on :
      (k p : ℕ)
      → p ≢ bp
      → ((p < bp) × (h.ptr p < bp) × (p < h.ptr p)) ⊎ ((bp < p) × ((p < h.ptr p) ⊎ (h.ptr p < bp)))
      → find_place W base sbrk (suc k) bp p h ≡ find_place W base sbrk k bp (h.ptr p) h
  unfolding find_place
  goes_on k p ne (inl (low, low', up)) = ground (arith, low, low', up)
  goes_on k p ne (inr (high, on)) = ground (arith, high, on)

  -- From a block below `bp`, along ascending blocks to one that is not above them, or is above `bp`.
  from_below :
      (k p e : ℕ) (xs : List ℕ)
      → p < bp
      → Links h.ptr p xs e
      → Ascending p xs
      → All (λ x. x ≢ bp) xs
      → (e ≤ p) ⊎ (bp < e)
      → length xs < k
      → Found (find_place W base sbrk k bp p h)
  from_below zero p e xs low links up apart end fuel = absurd (omega (arith, fuel))
  from_below (suc k) p e [] low links up apart end fuel = stops k p (elim end [
    | inl wraps ↦ inr (omega (arith, wraps, links), inl low)
    | inr above ↦ inl (low, omega (arith, above, links))
  ])
  from_below (suc k) p e (x ∷ xs) low links up apart end fuel = elim (dec_lt bp x) [
    | yes high ↦ stops k p (inl (low, omega (arith, high, links.0)))
    | no not_high ↦
        let low' : x < bp = omega (arith, not_high, apart.0) in
        subst Found
          (sym (
            goes_on k p (λ e'. omega (arith, e', low))
              (inl (low, omega (arith, low', links.0), omega (arith, up.0, links.0)))
            ∙ ap (λ (y : ℕ). find_place W base sbrk k bp y h) links.0))
          (from_below k x e xs low' links.1 up.1 apart.1
            (elim end [ inl wraps ↦ inl (omega (arith, wraps, up.0)) | inr above ↦ inr above ])
            (omega (arith, fuel)))
  ]

  -- From a block above `bp`, along the ascending blocks `ups` and then, from the lowest on, `lows`.
  from_above :
      (k p e : ℕ) (ups lows : List ℕ)
      → (bp < p) × (bp < e) × (e ≤ p)
      → Links h.ptr p (ups ++ lows) e
      → Ascending p ups
      → InOrder lows
      → All (λ x. (x ≢ bp) × (x < e)) lows
      → length ups + length lows < k
      → Found (find_place W base sbrk k bp p h)
  from_above zero p e ups lows high links up asc apart fuel = absurd (omega (arith, fuel))
  from_above (suc k) p e [] [] high links up asc apart fuel =
      stops k p (inr (omega (arith, high, links), inr (omega (arith, high, links))))
  from_above (suc k) p e [] (l ∷ lows) high links up asc apart fuel = elim (dec_lt bp l) [
    | yes out ↦
        stops k p (inr (omega (arith, apart.0, links.0, high), inr (omega (arith, out, links.0))))
    | no not_high ↦
        let low : l < bp = omega (arith, not_high, apart.0) in
        subst Found
          (sym (
            goes_on k p (λ e'. omega (arith, e', high))
              (inr (high.0, inr (omega (arith, low, links.0))))
            ∙ ap (λ (y : ℕ). find_place W base sbrk k bp y h) links.0))
          (from_below k l e lows low links.1 asc (All-left e lows apart.1) (inr high.1)
            (omega (arith, fuel)))
  ]
  from_above (suc k) p e (x ∷ ups) lows high links up asc apart fuel =
      subst Found
        (sym (
          goes_on k p (λ e'. omega (arith, e', high))
            (inr (high.0, inl (omega (arith, up.0, links.0))))
          ∙ ap (λ (y : ℕ). find_place W base sbrk k bp y h) links.0))
        (from_above k x e ups lows (omega (arith, high, up.0), high.1, omega (arith, high, up.0))
          links.1 up.1 asc apart (omega (arith, fuel)))

  -- The search of free, from the block where the last search ended through the blocks `ups` above it and
  -- then `lows` below it, all in the order of addresses and none of them `bp`: with fuel for these
  -- blocks it ends, at the block behind which `bp` belongs.
  pub find_place-Between :
      (k : ℕ) (ups lows : List ℕ)
      → Links h.ptr h.freep (ups ++ lows) h.freep
      → Ascending h.freep ups
      → InOrder lows
      → h.freep ≢ bp
      → All (λ x. x ≢ bp) ups
      → All (λ x. (x ≢ bp) × (x < h.freep)) lows
      → length ups + length lows < k
      → (p : ℕ) × (find_place W base sbrk k bp h.freep h ≡ ok p) × Between h.ptr bp p
  find_place-Between k ups lows links up asc ne apart apart' fuel = elim (dec_lt bp h.freep) [
    | yes high ↦
        from_above k h.freep h.freep ups lows (high, high, omega arith) links up asc apart' fuel
    | no not_high ↦
        from_below k h.freep (first_of lows h.freep) ups (omega (arith, not_high, ne))
          (Links-left h.ptr h.freep h.freep ups lows links) up apart
          (inl (first_low h.freep lows apart')) (omega (arith, fuel))
  ]
