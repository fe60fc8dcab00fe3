-- ===== src/Vm/Remap.antt =====
-- mappages of kernel/vm.c for a page whose tables are there and whose entry has been cleared.
use os_spring.Prelude.{
  ℕ, suc, ◌+◌, ◌-◌, ◌/◌, ◌%◌, ◌^◌, ◌<◌, ◌≡◌, ◌≢◌, refl, sym, subst, ap, ◌∙◌, fun_ext, true, false,
  some, arith, ◌==◌, if◌then◌else◌, ok,
}
use os_spring.Vm.{
  Flags, Pages, Vm, Pte, no_pte, pte2pa, pgsize, maxva, pgrounddown, px2, px1, px0, set_pte, walk,
  walk_round, mappages,
}
use os_spring.Vm.Tree.{Place, Places, mapping}
use os_spring.Vm.Walk.{Leads}
use os_spring.Vm.Maps.{first_entry, written-Tree, mapping-written, round}

module _ (P : Pages) (root : ℕ) where
  -- walk with allocation allocates nothing where the tables are there.
  walk_there :
      (va m q : ℕ) (s : Vm P)
      → va < maxva
      → ((s.table root (px2 va)).flags.v ≡ true) × (pte2pa (s.table root (px2 va)) ≡ m)
      → ((s.table m (px1 va)).flags.v ≡ true) × (pte2pa (s.table m (px1 va)) ≡ q)
      → walk P root va true s ≡ ok (some (q, px0 va), s)
  unfolding walk walk_round
  walk_there va m q s h first second = ground (arith, h, first, second)

  -- mappages of one page.
  one_page :
      (va pa q : ℕ) (perm : Flags) (s : Vm P)
      → va % pgsize ≡ 0
      → va < maxva
      → walk P root va true s ≡ ok (some (q, px0 va), s)
      → (s.table q (px0 va)).flags.v ≡ false
      → mappages P root va pgsize pa perm s
        ≡ ok (true, set_pte P q (px0 va) (first_entry P root perm pa) s)
  unfolding mappages
  one_page va pa q perm s al h w n =
      let first : pgrounddown va ≡ va = omega arith in
      let last : pgrounddown ((va + pgsize + 2 ^ 64 - 1) % 2 ^ 64) ≡ va = omega arith in
      rw (first, last, round P root perm (suc ((maxva - va) / pgsize)) va va pa q (px0 va) s s w n)
        (ground arith)

  -- An entry at the lowest level is written again by mappages, after it was cleared: `t` is `s` with
  -- the entry cleared, its bytes and its pages in any state.
  module _ (va q : ℕ) (place : ℕ → Place) (s t : Vm P) (d : Leads P root va q place s s)
      (h : va < maxva) (cleared : t.table ≡ (set_pte P q (px0 va) no_pte s).table) where
    top_stays : t.table root (px2 va) ≡ s.table root (px2 va)
    top_stays =
        let apart : q ≢ root = λ e. ground (arith, d.at, d.tree.places.at_root, ap place e) in
        rw cleared (ground (arith, apart))

    middle_stays : t.table (d.middle) (px1 va) ≡ s.table (d.middle) (px1 va)
    middle_stays =
        let apart : q ≢ d.middle = λ e. ground (arith, d.at, d.at_middle, ap place e) in
        rw cleared (ground (arith, apart))

    pub remap_lem :
        (pa : ℕ) (perm : Flags)
        → va % pgsize ≡ 0
        → (t' : Vm P) × (mappages P root va pgsize pa perm t ≡ ok (true, t'))
          × (t'.pages ≡ t.pages)
          × (t'.mem ≡ t.mem)
          × Places root place t'.table
          × ((a : ℕ)
              → a < maxva
              → mapping root t'.table a ≡ (
                  if va / pgsize == a / pgsize
                  then some (record { ppn = pa / pgsize; flags = record perm { v = true } })
                  else mapping root s.table a))
    unfolding first_entry
    remap_lem pa perm al =
        let e = first_entry P root perm pa in
        let w =
          walk_there va (d.middle) q t h
            (ap (λ (x : Pte). x.flags.v) top_stays ∙ d.first.0, ap pte2pa top_stays ∙ d.first.1)
            (
              ap (λ (x : Pte). x.flags.v) middle_stays ∙ d.second.0,
              ap pte2pa middle_stays ∙ d.second.1,
            ) in
        let same : (set_pte P q (px0 va) e t).table ≡ (set_pte P q (px0 va) e s).table =
          rw cleared (fun_ext λ p. fun_ext λ i. ground arith) in
        (
          set_pte P q (px0 va) e t,
          one_page va pa q perm t al h w (rw cleared (ground arith)),
          refl,
          refl,
          subst (Places root place) (sym same) (written-Tree P root va q place s s d h e).places,
          λ a ha.
              ap (λ (x : ℕ → ℕ → Pte). mapping root x a) same
              ∙ mapping-written P root va q place s s d h e a ha,
        )
