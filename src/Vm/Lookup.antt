-- ===== src/Vm/Lookup.antt =====
-- walk of kernel/vm.c without allocation, walkaddr and uvmunmap, by the map of the page table.
use os_spring.Prelude.{
  ℕ, zero, suc, ◌+◌, ◌*◌, ◌/◌, ◌%◌, ◌≤◌, ◌<◌, ◌≡◌, ◌⊎◌, inl, inr, refl, sym, ap, ◌∙◌, Bool, true,
  false, ◌&&◌, ◌||◌, Option, none, some, some-injective, arith, ltb, leb, Bool-cases, if◌then◌else◌,
  ok,
}
use os_spring.Vm.{
  Pages, Vm, Pte, Flags, no_pte, pte2pa, pgsize, maxva, px2, px1, px0, set_pte, walk_round, walk,
  walkaddr, unmap_from, uvmunmap,
}
use os_spring.Vm.Tree.{Place, mid, is_upper, child, at_low, mapping}
use os_spring.Vm.Rounds.{Tree}
use os_spring.Vm.Walk.{Leads}
use os_spring.Vm.Maps.{reached, written-Tree, mapping-written}

-- The physical page of a user page.
abbrev user_page : Option Pte → Option ℕ
user_page none = none
user_page (some e) = if e.flags.u then some (pte2pa e) else none

module _ (P : Pages) (root : ℕ) (place : ℕ → Place) (s : Vm P) (tree : Tree P root place s) where
  -- walk without allocation changes nothing; it comes to the entry of the address, or answers 0 and
  -- the address is not mapped.
  pub walk_lookup :
      (va : ℕ)
      → va < maxva
      → ((walk P root va false s ≡ ok (none, s)) × (mapping root s.table va ≡ none))
        ⊎ ((q : ℕ) × (walk P root va false s ≡ ok (some (q, px0 va), s))
            × Leads P root va q place s s)
  unfolding walk walk_round
  walk_lookup va h = elim (Bool-cases (s.table root (px2 va)).flags.v) [
    | inr n ↦ inl (ground (arith, n), rw n refl)
    | inl v ↦
        let m = pte2pa (s.table root (px2 va)) in
        let at_m : place m ≡ mid (px2 va) =
          tree.places.at_child root (px2 va) (ap is_upper tree.places.at_root) v
          ∙ ap (λ c. child c (px2 va)) tree.places.at_root in
        elim (Bool-cases (s.table m (px1 va)).flags.v) [
          | inr n ↦ inl (ground (arith, v, n), rw (v, n) refl)
          | inl v' ↦ inr (
            pte2pa (s.table m (px1 va)),
            ground (arith, v, v'),
            record {
              tree = tree;
              at =
                  tree.places.at_child m (px1 va) (ap is_upper at_m) v'
                  ∙ ap (λ c. child c (px1 va)) at_m;
              middle = m;
              at_middle = at_m;
              first = (v, refl);
              second = (v', refl);
              maps = λ a. refl;
            },
          )
        ]
  ]

  -- walkaddr answers the page that a user address is mapped to, and 0 for an address that is not
  -- mapped, not mapped for the user, or not below MAXVA.
  pub walkaddr_lem :
      (va : ℕ)
      → walkaddr P root va s
        ≡ ok (if leb maxva va then none else user_page (mapping root s.table va))
  unfolding walkaddr
  walkaddr_lem va = elim (Bool-cases (leb maxva va)) [
    | inl out ↦ rw out refl
    | inr below ↦ elim (walk_lookup va (ground (arith, below))) [
      | inl (w, none_here) ↦ rw (below, w, none_here) refl
      | inr (q, w, d) ↦
          let e = s.table q (px0 va) in
          let to = reached P root va q place s s d (ground (arith, below)) e in
          rw (below, w, to)
            (elim (Bool-cases e.flags.v) [ inl v ↦ rw v (ground arith) | inr n ↦ rw n refl ])
    ]
  ]

-- An entry that uvmunmap takes for a leaf.
abbrev is_leaf : Flags → Bool
is_leaf f = f.r || (f.w || (f.x || (f.u || f.cow)))

-- The map `f` without `m` pages from the page of `a` on.
abbrev pub without_pages : (ℕ → Option Pte) → ℕ → ℕ → ℕ → Option Pte
without_pages f a m va =
    if leb (a / pgsize) (va / pgsize) && ltb (va / pgsize) (a / pgsize + m) then none else f va

module _ (P : Pages) (root : ℕ) (place : ℕ → Place) where
  abbrev pub Leaves : ℕ → ℕ → Vm P → Type 0
  Leaves n a s =
      (va : ℕ)
      → a / pgsize ≤ va / pgsize
      → va / pgsize < a / pgsize + n
      → (e : Pte) × (mapping root s.table va ≡ some e) × (is_leaf e.flags ≡ true)

  unmap_round :
      (k a q : ℕ) (s : Vm P)
      → walk P root a false s ≡ ok (some (q, px0 a), s)
      → (s.table q (px0 a)).flags.v ≡ true
      → is_leaf (s.table q (px0 a)).flags ≡ true
      → unmap_from P (suc k) root a false s
        ≡ unmap_from P k root (a + pgsize) false (set_pte P q (px0 a) no_pte s)
  unfolding unmap_from
  unmap_round k a q s w v l = ground (arith, w, v, l)

  unmap_from_lem :
      (n a : ℕ) (s : Vm P)
      → Tree P root place s
      → a + n * pgsize ≤ maxva
      → Leaves n a s
      → (s' : Vm P) × (unmap_from P n root a false s ≡ ok s')
        × Tree P root place s'
        × ((va : ℕ)
            → va < maxva
            → mapping root s'.table va ≡ without_pages (mapping root s.table) a n va)
  unfolding unmap_from
  unmap_from_lem zero a s tree h leaves = (s, refl, tree, λ va hv. ground arith)
  unmap_from_lem (suc n) a s tree h leaves =
      let ha : a < maxva = omega arith in
      let (e, mapped, leaf) = leaves a (omega arith) (omega arith) in
      elim (walk_lookup P root place s tree a ha) [
        | inl (w, gone) ↦ cc (sym gone ∙ mapped)
        | inr (q, w, d) ↦
            let to = reached P root a q place s s d ha no_pte in
            let e' = s.table q (px0 a) in
            elim (Bool-cases e'.flags.v) [
              | inr n₀ ↦
                  let nothing : at_low s.table (px0 a) q ≡ none = rw n₀ refl in
                  cc (sym nothing ∙ sym to ∙ mapped)
              | inl v ↦
                  let found : at_low s.table (px0 a) q ≡ some e' = rw v refl in
                  let same = some-injective e' e (sym found ∙ sym to ∙ mapped) in
                  let tree' = written-Tree P root a q place s s d ha no_pte in
                  let maps' = mapping-written P root a q place s s d ha no_pte in
                  let (s', r, tree'', maps'') =
                    unmap_from_lem n (a + pgsize) (set_pte P q (px0 a) no_pte s) tree' (omega arith)
                      λ va lo hi.
                        let (x, at_x, leaf_x) = leaves va (omega arith) (omega arith) in
                        (x, maps' va (omega arith) ∙ ground (arith, at_x), leaf_x) in
                  (
                    s',
                    unmap_round n a q s w v (ap (λ (x : Pte). is_leaf x.flags) same ∙ leaf) ∙ r,
                    tree'',
                    λ va hv. maps'' va hv ∙ ground (arith, maps' va hv),
                  )
            ]
      ]

  -- uvmunmap of mapped leaf pages below MAXVA, keeping the physical pages, in a page table whose pages
  -- are not shared: it does not panic, leaves these pages unmapped and every other address mapped as
  -- before, and keeps the page table so.
  pub uvmunmap_lem :
      (n va : ℕ) (s : Vm P)
      → Tree P root place s
      → va % pgsize ≡ 0
      → va + n * pgsize ≤ maxva
      → Leaves n va s
      → (s' : Vm P) × (uvmunmap P root va n false s ≡ ok s')
        × Tree P root place s'
        × ((a : ℕ)
            → a < maxva
            → mapping root s'.table a ≡ without_pages (mapping root s.table) va n a)
  unfolding uvmunmap
  uvmunmap_lem n va s tree al h leaves =
      let (s', e, tree', maps') = unmap_from_lem n va s tree h leaves in
      (s', ground (arith, al, e), tree', maps')
