-- ===== src/Vm/Rounds.antt =====
-- One round of walk in kernel/vm.c, with allocation: what it leaves of the page table.
use native.Mathlib.Decide.{ℕ_discrete}
use os_spring.Prelude.{
  ℕ, ◌/◌, ◌≡◌, ◌≢◌, ◌⊎◌, inl, inr, refl, sym, subst, ap, ◌∙◌, true, false, ◌&&◌, Option, none, some,
  arith, ◌==◌, ==_iff, Bool-cases, if◌then◌else◌,
}
use os_spring.Vm.{Pages, Vm, Pte, no_flags, no_pte, pte2pa, pgsize, store, set_pte, walk_round}
use os_spring.Vm.Tree.{
  Place, top, mid, low, other, is_table, is_upper, child, mapping, Places, upper_table,
  same_mapping,
}

is_table_other : (c : Place) → is_table c ≡ false → c ≡ other
is_table_other top h = cc
is_table_other (mid i) h = cc
is_table_other (low i j) h = cc
is_table_other other h = refl

child_table : (c : Place) (i : ℕ) → is_upper c ≡ true → is_table (child c i) ≡ true
child_table top i h = refl
child_table (mid j) i h = refl
child_table (low j k) i h = cc
child_table other i h = cc

module _ (P : Pages) (root : ℕ) where
  open P use {State, kalloc, IsValid, InUse, fresh, empty}

  -- No page-table page is shared, and each is in use.
  pub record Tree (place : ℕ → Place) (s : Vm P) : Type 0 where
    pub places : Places root place s.table
    pub used : (p : ℕ) → is_table (place p) ≡ true → InUse s.pages p
    pub valid : IsValid s.pages

  -- The page `q` is under the entry `i` of the page `pt`, and no mapping has changed.
  pub record Under (pt i q : ℕ) (place : ℕ → Place) (s : Vm P) (place' : ℕ → Place) (s' : Vm P)
      : Type 0 where
    pub tree : Tree place' s'
    pub at : place' q ≡ child (place pt) i
    pub entry : ((s'.table pt i).flags.v ≡ true) × (pte2pa (s'.table pt i) ≡ q)
    pub maps : (va : ℕ) → mapping root s'.table va ≡ mapping root s.table va
    pub stay : (a : ℕ) → is_table (place a) ≡ true → place' a ≡ place a
    pub kept :
        (a j : ℕ)
        → is_table (place a) ≡ true
        → (s.table a j).flags.v ≡ true
        → s'.table a j ≡ s.table a j

  module _ (place : ℕ → Place) (s : Vm P) (tree : Tree place s) (pt i : ℕ)
      (up : is_upper (place pt) ≡ true) where
    module _ (p : ℕ) (pages : State) (n : (s.table pt i).flags.v ≡ false)
        (k : kalloc s.pages ≡ (some p, pages)) where
      link : Pte
      link = record { ppn = p / pgsize; flags = record no_flags { v = true } }

      linked : Vm P
      linked =
          set_pte P pt i link (record s { pages = pages; table = store s.table p (λ _. no_pte) })

      place' : ℕ → Place
      place' = store place p (child (place pt) i)

      not_used : is_table (place p) ≡ false
      not_used = elim (Bool-cases (is_table (place p))) [
        | inl y ↦ absurd ((fresh s.pages pages p tree.valid k).1 (tree.used p y))
        | inr e ↦ e
      ]

      apart : (a : ℕ) → is_table (place a) ≡ true → p ≢ a
      apart a h e = cc (subst (λ b. is_table (place b) ≡ false) e not_used, h)

      link_pa : pte2pa link ≡ p
      unfolding link
      link_pa = omega (arith, (fresh s.pages pages p tree.valid k).3)

      linked_new : (j : ℕ) → linked.table p j ≡ no_pte
      unfolding linked
      linked_new j = ground (arith, apart pt (upper_table (place pt) up))

      linked_old :
          (a j : ℕ)
          → is_table (place a) ≡ true
          → linked.table a j ≡ (if pt == a && i == j then link else s.table a j)
      unfolding linked
      linked_old a j h = ground (arith, apart a h)

      linked_kept :
          (a j : ℕ)
          → is_table (place a) ≡ true
          → (s.table a j).flags.v ≡ true
          → linked.table a j ≡ s.table a j
      linked_kept a j h v = linked_old a j h ∙ ground (arith, n, v)

      linked_bare :
          (a j m : ℕ)
          → is_upper (place a) ≡ true
          → (s.table a j).flags.v ≡ false
          → (linked.table a j).flags.v ≡ true
          → (linked.table (pte2pa (linked.table a j)) m).flags.v ≡ false
      linked_bare a j m h n' y = elim (Bool-cases (pt == a && i == j)) [
        | inl here ↦
            let e : linked.table a j ≡ link =
              linked_old a j (upper_table (place a) h) ∙ rw here refl in
            ap (λ (q : ℕ). (linked.table q m).flags.v) (ap pte2pa e ∙ link_pa)
            ∙ ap (λ (x : Pte). x.flags.v) (linked_new m)
        | inr there ↦
            let e : linked.table a j ≡ s.table a j =
              linked_old a j (upper_table (place a) h) ∙ rw there refl in
            cc (e, n', y)
      ]

      linked_leaves :
          (a j : ℕ)
          → is_table (place a) ≡ true
          → is_upper (place a) ≡ false
          → linked.table a j ≡ s.table a j
      linked_leaves a j h l = linked_old a j h ∙ elim (Bool-cases (pt == a)) [
        | inl e ↦ cc (subst (λ b. is_upper (place b) ≡ true) ((==_iff pt a).0 e) up, l)
        | inr e ↦ rw e refl
      ]

      stays : (a : ℕ) → is_table (place a) ≡ true → place' a ≡ place a
      unfolding place'
      stays a h = ground (arith, apart a h)

      at_new : place' p ≡ child (place pt) i
      unfolding place'
      at_new = ground arith

      root_table : is_table (place root) ≡ true
      root_table = ap is_table tree.places.at_root

      -- The entries of the pages that were there.
      old_child :
          (q j : ℕ)
          → is_upper (place q) ≡ true
          → (linked.table q j).flags.v ≡ true
          → place' (pte2pa (linked.table q j)) ≡ child (place q) j
      old_child q j h v = elim (Bool-cases (pt == q && i == j)) [
        | inl here ↦
            let e : linked.table q j ≡ link =
              linked_old q j (upper_table (place q) h) ∙ rw here refl in
            ap place' (ap pte2pa e ∙ link_pa) ∙ at_new ∙ ground (arith, here)
        | inr there ↦
            let e : linked.table q j ≡ s.table q j =
              linked_old q j (upper_table (place q) h) ∙ rw there refl in
            let c = tree.places.at_child q j h (subst (λ (x : Pte). x.flags.v ≡ true) e v) in
            ap (λ (x : Pte). place' (pte2pa x)) e
            ∙ stays (pte2pa (s.table q j)) (ap is_table c ∙ child_table (place q) j h)
            ∙ c
      ]

      elsewhere : (q : ℕ) → p ≢ q → place' q ≡ place q
      unfolding place'
      elsewhere q ne = ground (arith, ne)

      linked_Places : Places root place' linked.table
      linked_Places = record {
        at_root = stays root root_table ∙ tree.places.at_root;
        at_child = λ q j h v. elim (Bool-cases (is_table (place q))) [
          | inl old ↦
              let e = stays q old in
              old_child q j (sym (ap is_upper e) ∙ h) v ∙ ap (λ c. child c j) (sym e)
          | inr new ↦ elim (ℕ_discrete p q) [
            | yes e ↦ cc (
              subst (λ b. (linked.table b j).flags.v ≡ true) (sym e) v,
              ap (λ (x : Pte). x.flags.v) (linked_new j),
            )
            | no ne ↦ cc (upper_table (place q) (sym (ap is_upper (elsewhere q ne)) ∙ h), new)
          ]
        ];
      }

      linked_used : (q : ℕ) → is_table (place' q) ≡ true → InUse pages q
      linked_used q h = elim (ℕ_discrete p q) [
        | yes e ↦ subst (InUse pages) e (fresh s.pages pages p tree.valid k).2
        | no ne ↦
            (fresh s.pages pages p tree.valid k).4 q
              (tree.used q (sym (ap is_table (elsewhere q ne)) ∙ h))
      ]

      linked_entry : linked.table pt i ≡ link
      linked_entry = linked_old pt i (upper_table (place pt) up) ∙ ground arith

      linked-Under : Under pt i p place s place' linked
      unfolding linked link
      linked-Under = record {
        tree = record {
          places = linked_Places;
          used = linked_used;
          valid = (fresh s.pages pages p tree.valid k).0;
        };
        at = at_new;
        entry = (ap (λ (x : Pte). x.flags.v) linked_entry, ap pte2pa linked_entry ∙ link_pa);
        maps =
            same_mapping root place s.table linked.table tree.places linked_kept linked_bare
              linked_leaves;
        stay = stays;
        kept = linked_kept;
      }

    nothing_new :
        (q : ℕ)
        → (s.table pt i).flags.v ≡ true
        → pte2pa (s.table pt i) ≡ q
        → Under pt i q place s place s
    nothing_new q v e = record {
      tree = tree;
      at = sym (ap place e) ∙ tree.places.at_child pt i up v;
      entry = (v, e);
      maps = λ va. refl;
      stay = λ a h. refl;
      kept = λ a j h w. refl;
    }

    -- A round of walk with allocation comes to a page under its entry, or leaves all as it was.
    pub walk_round-Under :
        (walk_round P true pt i s ≡ (none, s))
        ⊎ ((q : ℕ) × (place' : ℕ → Place) × (s' : Vm P) × (walk_round P true pt i s ≡ (some q, s'))
            × Under pt i q place s place' s')
    unfolding walk_round linked link
    walk_round-Under = elim (Bool-cases (s.table pt i).flags.v) [
      | inl v ↦ inr (pte2pa (s.table pt i), place, s, rw v refl, nothing_new _ v refl)
      | inr n ↦ go (kalloc s.pages) n refl
    ]
      where
        go :
            (r : Option ℕ × State)
            → (s.table pt i).flags.v ≡ false
            → kalloc s.pages ≡ r
            → (walk_round P true pt i s ≡ (none, s))
              ⊎ ((q : ℕ) × (place' : ℕ → Place) × (s' : Vm P) × (walk_round P true pt i s
                    ≡ (some q, s'))
                  × Under pt i q place s place' s')
        go (none, pages) n e = inl (
            rw (n, e)
              (ap (λ (x : State). (none, record s { pages = x }))
                (ap (λ (r : Option ℕ × State). r.1) e ∙ empty s.pages pages e)))
        go (some p, pages) n e = inr (
          p,
          place' p pages n e,
          linked p pages n e,
          rw (n, e)
              (ap (λ (x : State). (some p, record (linked p pages n e) { pages = x }))
                (ap (λ (r : Option ℕ × State). r.1) e)),
          linked-Under p pages n e,
        )
