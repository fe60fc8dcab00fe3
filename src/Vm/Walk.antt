-- ===== src/Vm/Walk.antt =====
-- walk of kernel/vm.c with allocation: it comes to the entry of the address at the lowest level.
use os_spring.Prelude.{ℕ, ◌<◌, ◌≡◌, ◌⊎◌, inl, inr, refl, ap, ◌∙◌, true, none, some, arith, ok}
use os_spring.Vm.{Pages, Vm, Pte, pte2pa, maxva, px2, px1, px0, walk}
use os_spring.Vm.Tree.{Place, mid, low, is_table, is_upper, child, mapping}
use os_spring.Vm.Rounds.{Tree, walk_round-Under}

module _ (P : Pages) (root : ℕ) where
  -- The entry of `va` in `s'` is that of index `px0 va` in the page `q`; no mapping has changed.
  pub record Leads (va q : ℕ) (place' : ℕ → Place) (s s' : Vm P) : Type 0 where
    pub tree : Tree P root place' s'
    pub at : place' q ≡ low (px2 va) (px1 va)
    pub middle : ℕ
    pub at_middle : place' middle ≡ mid (px2 va)
    pub first :
        ((s'.table root (px2 va)).flags.v ≡ true) × (pte2pa (s'.table root (px2 va)) ≡ middle)
    pub second :
        ((s'.table middle (px1 va)).flags.v ≡ true) × (pte2pa (s'.table middle (px1 va)) ≡ q)
    pub maps : (a : ℕ) → mapping root s'.table a ≡ mapping root s.table a

  -- walk with allocation comes to the entry, or answers 0 with no mapping changed.
  pub walk-Leads :
      (place : ℕ → Place) (s : Vm P) (va : ℕ)
      → Tree P root place s
      → va < maxva
      → (place' : ℕ → Place) × (s' : Vm P) × (((walk P root va true s ≡ ok (none, s'))
            × Tree P root place' s'
            × ((a : ℕ) → mapping root s'.table a ≡ mapping root s.table a))
          ⊎ ((q : ℕ) × (walk P root va true s ≡ ok (some (q, px0 va), s'))
              × Leads va q place' s s'))
  unfolding walk
  walk-Leads place s va tree h =
      let up = ap is_upper tree.places.at_root in
      elim (walk_round-Under P root place s tree root (px2 va) up) [
        | inl e ↦ (place, s, inl (ground (arith, e), tree, λ a. refl))
        | inr (m, place₁, s₁, e, u) ↦
            let at_m : place₁ m ≡ mid (px2 va) =
              u.at ∙ ap (λ c. child c (px2 va)) tree.places.at_root in
            elim (walk_round-Under P root place₁ s₁ u.tree m (px1 va) (ap is_upper at_m)) [
              | inl e' ↦ (place₁, s₁, inl (ground (arith, e, e'), u.tree, u.maps))
              | inr (q, place₂, s₂, e', u') ↦
                  let kept = u'.kept root (px2 va) (ap is_table u.tree.places.at_root) u.entry.0 in
                  (
                    place₂,
                    s₂,
                    inr (
                      q,
                      ground (arith, e, e'),
                      record {
                        tree = u'.tree;
                        at = u'.at ∙ ap (λ c. child c (px1 va)) at_m;
                        middle = m;
                        at_middle = u'.stay m (ap is_table at_m) ∙ at_m;
                        first = (
                          ap (λ (x : Pte). x.flags.v) kept ∙ u.entry.0,
                          ap pte2pa kept ∙ u.entry.1,
                        );
                        second = u'.entry;
                        maps = λ a. u'.maps a ∙ u.maps a;
                      },
                    ),
                  )
            ]
      ]
