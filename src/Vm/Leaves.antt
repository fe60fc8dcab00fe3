-- ===== src/Vm/Leaves.antt =====
-- Writing one entry of the lowest level in the page table of kernel/vm.c changes one mapping.
use os_spring.Prelude.{
  ℕ, ◌/◌, ◌<◌, ◌≡◌, ◌≢◌, inl, inr, refl, sym, subst, ap, ◌∙◌, true, Option, some, arith, ◌==◌,
  ==_iff, Bool-cases, if◌then◌else◌,
}
use os_spring.Vm.{Pte, pte2pa, pgsize, maxva, px2, px1, px0, store}
use os_spring.Vm.Tree.{Place, mid, low, is_upper, child, through, at_low, at_mid, mapping, Places}

-- The three indices and the offset make up the address.
px_injective :
    (a b : ℕ)
    → a < maxva
    → b < maxva
    → px2 a ≡ px2 b
    → px1 a ≡ px1 b
    → px0 a ≡ px0 b
    → a / pgsize ≡ b / pgsize
px_injective a b ha hb e₂ e₁ e₀ = omega arith

px-page : (a b : ℕ) → a / pgsize ≡ b / pgsize → (px2 a ≡ px2 b) × (px1 a ≡ px1 b) × (px0 a ≡ px0 b)
px-page a b e = omega arith

pub through_to {ℓ} :
    {A : Type ℓ} (x : Pte) (k : ℕ → Option A) (p : ℕ)
    → (x.flags.v ≡ true) × (pte2pa x ≡ p)
    → through x k ≡ k p
through_to x k p (v, e) = rw v (ap k e)

abbrev set_entry : (ℕ → ℕ → Pte) → ℕ → ℕ → Pte → ℕ → ℕ → Pte
set_entry t q c e = store t q (store (t q) c e)

module _ (root : ℕ) (place : ℕ → Place) (t : ℕ → ℕ → Pte) (tree : Places root place t) (q i j c : ℕ)
    (at : place q ≡ low i j) (e : Pte) where
  not_here : (a : ℕ) → place a ≢ low i j → (n : ℕ) → set_entry t q c e a n ≡ t a n
  not_here a h n = elim (Bool-cases (q == a)) [
    | inl here ↦ absurd (h (ap place (sym ((==_iff q a).0 here)) ∙ at))
    | inr there ↦ rw there refl
  ]

  upper_same : (a : ℕ) → is_upper (place a) ≡ true → (n : ℕ) → set_entry t q c e a n ≡ t a n
  upper_same a h = not_here a (λ x. cc (ap is_upper x, h))

  pub set_entry-Places : Places root place (set_entry t q c e)
  set_entry-Places = record {
    at_root = tree.at_root;
    at_child = λ p n h v.
        let same = upper_same p h n in
        ap (λ (x : Pte). place (pte2pa x)) same
        ∙ tree.at_child p n h (subst (λ (x : Pte). x.flags.v ≡ true) same v);
  }

  mid_root : (n : ℕ) → (t root n).flags.v ≡ true → place (pte2pa (t root n)) ≡ mid n
  mid_root n v =
      tree.at_child root n (ap is_upper tree.at_root) v ∙ ap (λ x. child x n) tree.at_root

  low_mid :
      (p m n : ℕ) → place p ≡ mid m → (t p n).flags.v ≡ true → place (pte2pa (t p n)) ≡ low m n
  low_mid p m n at_p v = tree.at_child p n (ap is_upper at_p) v ∙ ap (λ x. child x n) at_p

  entry_other : (a n : ℕ) → ¬ ((q ≡ a) × (c ≡ n)) → set_entry t q c e a n ≡ t a n
  entry_other a n h = ground (arith, λ (x : q ≡ a) (y : c ≡ n). h (x, y))

  entry_here : set_entry t q c e q c ≡ e
  entry_here = ground arith

  low_same :
      (i' j' c' q' : ℕ)
      → place q' ≡ low i' j'
      → ¬ ((i ≡ i') × (j ≡ j') × (c ≡ c'))
      → at_low (set_entry t q c e) c' q' ≡ at_low t c' q'
  low_same i' j' c' q' at' ne =
      ap (λ (x : Pte). through x (λ _. some x))
        (entry_other q' c' λ (eq, ec).
          let same : low i j ≡ low i' j' = sym at ∙ ap place eq ∙ at' in ne (cc same, cc same, ec))

  mid_same :
      (i' b c' p : ℕ)
      → place p ≡ mid i'
      → ¬ ((i ≡ i') × (j ≡ b) × (c ≡ c'))
      → at_mid (set_entry t q c e) b c' p ≡ at_mid t b c' p
  mid_same i' b c' p at' ne =
      ap (λ (x : Pte). through x (at_low (set_entry t q c e) c')) (upper_same p (ap is_upper at') b)
      ∙ elim (Bool-cases (t p b).flags.v) [
        | inl v ↦ rw v (low_same i' b c' _ (low_mid p i' b at' v) ne)
        | inr n ↦ rw n refl
      ]

  mapping_same :
      (va : ℕ)
      → ¬ ((i ≡ px2 va) × (j ≡ px1 va) × (c ≡ px0 va))
      → mapping root (set_entry t q c e) va ≡ mapping root t va
  mapping_same va ne =
      ap (λ (x : Pte). through x (at_mid (set_entry t q c e) (px1 va) (px0 va)))
        (upper_same root (ap is_upper tree.at_root) (px2 va))
      ∙ elim (Bool-cases (t root (px2 va)).flags.v) [
        | inl v ↦ rw v (mid_same (px2 va) (px1 va) (px0 va) _ (mid_root (px2 va) v) ne)
        | inr n ↦ rw n refl
      ]

  module _ (m : ℕ) (at_m : place m ≡ mid i)
      (first : ((t root i).flags.v ≡ true) × (pte2pa (t root i) ≡ m))
      (second : ((t m j).flags.v ≡ true) × (pte2pa (t m j) ≡ q)) where
    mapping_here :
        (va : ℕ)
        → (i ≡ px2 va) × (j ≡ px1 va) × (c ≡ px0 va)
        → mapping root (set_entry t q c e) va ≡ through e (λ _. some e)
    mapping_here va (e₂, e₁, e₀) =
        let t' = set_entry t q c e in
        let k₁ = at_mid t' (px1 va) (px0 va) in
        let k₀ = at_low t' (px0 va) in
        ap (λ (n : ℕ). through (t' root n) k₁) (sym e₂)
        ∙ ap (λ (x : Pte). through x k₁) (upper_same root (ap is_upper tree.at_root) i)
        ∙ through_to (t root i) k₁ m first
        ∙ ap (λ (n : ℕ). through (t' m n) k₀) (sym e₁)
        ∙ ap (λ (x : Pte). through x k₀) (upper_same m (ap is_upper at_m) j)
        ∙ through_to (t m j) k₀ q second
        ∙ ap (λ (n : ℕ). at_low t' n q) (sym e₀)
        ∙ ap (λ (x : Pte). through x (λ _. some x)) entry_here

    -- The one mapping that changes is that of the page of the address `va`.
    pub mapping-set_entry :
        (va va' : ℕ)
        → va < maxva
        → va' < maxva
        → (i ≡ px2 va) × (j ≡ px1 va) × (c ≡ px0 va)
        → mapping root (set_entry t q c e) va'
          ≡ (if va / pgsize == va' / pgsize then through e (λ _. some e) else mapping root t va')
    mapping-set_entry va va' h h' (e₂, e₁, e₀) = elim (Bool-cases (va / pgsize == va' / pgsize)) [
      | inl same ↦
          let (s₂, s₁, s₀) = px-page va va' ((==_iff _ _).0 same) in
          mapping_here va' (e₂ ∙ s₂, e₁ ∙ s₁, e₀ ∙ s₀) ∙ rw same refl
      | inr differ ↦
          mapping_same va' (λ (s₂, s₁, s₀). cc (
            differ,
            (==_iff (va / pgsize) (va' / pgsize)).1
                (px_injective va va' h h' (sym e₂ ∙ s₂) (sym e₁ ∙ s₁) (sym e₀ ∙ s₀)),
          ))
          ∙ rw differ refl
    ]
