-- ===== src/Vm/Maps.antt =====
-- mappages of kernel/vm.c as a change to the map from addresses to entries.
use os_spring.Prelude.{
  ℕ, zero, suc, ◌+◌, ◌-◌, ◌*◌, ◌/◌, ◌%◌, ◌^◌, ◌≤◌, ◌<◌, ◌≡◌, ◌≢◌, ◌⊎◌, inl, inr, refl, sym, subst,
  ap, ◌∙◌, Bool, true, false, ◌&&◌, Option, none, some, arith, ltb, leb, ◌==◌, Bool-cases,
  if◌then◌else◌, Outcome, ok,
}
use os_spring.Vm.{
  Pages, Vm, Pte, Flags, pgsize, maxva, pgrounddown, px2, px1, px0, set_pte, walk, mappages_from,
  mappages,
}
use os_spring.Vm.Tree.{Place, through, at_low, at_mid, mapping}
use os_spring.Vm.Rounds.{Tree}
use os_spring.Vm.Leaves.{through_to, set_entry-Places, mapping-set_entry}
use os_spring.Vm.Walk.{Leads, walk-Leads}

-- The entry for the page of `va` where the page of `a` is mapped to `pa` and the next ones follow.
abbrev entry_for : ℕ → ℕ → Flags → ℕ → Pte
entry_for a pa perm va = record {
  ppn = pa / pgsize + (va / pgsize - a / pgsize);
  flags = record perm { v = true };
}

-- The map `f` with `m` pages from the page of `a` on mapped.
abbrev with_pages : (ℕ → Option Pte) → ℕ → ℕ → Flags → ℕ → ℕ → Option Pte
with_pages f a pa perm m va =
    if leb (a / pgsize) (va / pgsize) && ltb (va / pgsize) (a / pgsize + m)
    then some (entry_for a pa perm va)
    else f va

-- One entry, at the place where walk leads, is written.
module _ (P : Pages) (root : ℕ) (a q : ℕ) (place₁ : ℕ → Place) (s s₁ : Vm P)
    (d : Leads P root a q place₁ s s₁) (ha : a < maxva) (e : Pte) where
  abbrev written : Vm P
  written = set_pte P q (px0 a) e s₁

  pub reached : mapping root s₁.table a ≡ at_low s₁.table (px0 a) q
  reached =
      through_to (s₁.table root (px2 a)) (at_mid s₁.table (px1 a) (px0 a)) d.middle d.first
      ∙ through_to (s₁.table d.middle (px1 a)) (at_low s₁.table (px0 a)) q d.second

  not_valid : mapping root s.table a ≡ none → (s₁.table q (px0 a)).flags.v ≡ false
  not_valid un = elim (Bool-cases (s₁.table q (px0 a)).flags.v) [
    | inl v ↦
        let x : at_low s₁.table (px0 a) q ≡ some (s₁.table q (px0 a)) = rw v refl in
        cc (sym x ∙ sym reached ∙ d.maps a ∙ un)
    | inr n ↦ n
  ]

  pub written-Tree : Tree P root place₁ written
  written-Tree = record {
    places = set_entry-Places root place₁ s₁.table d.tree.places q (px2 a) (px1 a) (px0 a) d.at e;
    used = d.tree.used;
    valid = d.tree.valid;
  }

  pub mapping-written :
      (va : ℕ)
      → va < maxva
      → mapping root written.table va
        ≡ (if a / pgsize == va / pgsize then through e (λ _. some e) else mapping root s.table va)
  mapping-written va h =
      mapping-set_entry root place₁ s₁.table d.tree.places q (px2 a) (px1 a) (px0 a) d.at e d.middle
        d.at_middle d.first d.second a va ha h (refl, refl, refl)
      ∙ ap (λ (o : Option Pte). if a / pgsize == va / pgsize then through e (λ _. some e) else o)
          (d.maps va)

module _ (P : Pages) (root : ℕ) (perm : Flags) where
  -- The first `m` pages are mapped, all of them if the answer is 0.
  abbrev pub Maps : ℕ → ℕ → ℕ → Vm P → Outcome (Bool × Vm P) → Type 0
  Maps n a pa s r =
      (m : ℕ) × (place' : ℕ → Place) × (s' : Vm P) × (b : Bool) × (r ≡ ok (b, s'))
      × ((b ≡ true) × (m ≡ n) ⊎ (b ≡ false) × (m < n))
      × Tree P root place' s'
      × ((va : ℕ)
          → va < maxva
          → mapping root s'.table va ≡ with_pages (mapping root s.table) a pa perm m va)

  abbrev Unmapped : ℕ → ℕ → Vm P → Type 0
  Unmapped n a s =
      (va : ℕ)
      → a / pgsize ≤ va / pgsize
      → va / pgsize < a / pgsize + n
      → mapping root s.table va ≡ none

  unfoldable pub first_entry : ℕ → Pte
  first_entry pa = record { ppn = pa / pgsize; flags = record perm { v = true } }

  -- A round of the loop of mappages, with the entry found and not valid.
  pub round :
      (k a last pa q i : ℕ) (s s₁ : Vm P)
      → walk P root a true s ≡ ok (some (q, i), s₁)
      → (s₁.table q i).flags.v ≡ false
      → let s₂ = set_pte P q i (first_entry pa) s₁ in
        mappages_from P (suc k) root a last pa perm s ≡ (
          if a == last
          then ok (true, s₂)
          else mappages_from P k root (a + pgsize) last (pa + pgsize) perm s₂)
  unfolding mappages_from first_entry
  round k a last pa q i s s₁ w n = ground (arith, w, n)

  no_pages : (f : ℕ → Option Pte) (a pa va : ℕ) → f va ≡ with_pages f a pa perm 0 va
  no_pages f a pa va = ground arith

  with_pages_step :
      (f g : ℕ → Option Pte) (a pa m : ℕ)
      → ((va : ℕ)
          → va < maxva
          → g va ≡ (if a / pgsize == va / pgsize then some (first_entry pa) else f va))
      → (va : ℕ) → va < maxva
      → with_pages g (a + pgsize) (pa + pgsize) perm m va ≡ with_pages f a pa perm (suc m) va
  unfolding first_entry
  with_pages_step f g a pa m h va hv = ground (arith, h va hv)

  -- A round that writes an entry, with what the rest of the loop does.
  module _ (k n a last pa q : ℕ) (place₁ : ℕ → Place) (s s₁ : Vm P)
      (w : walk P root a true s ≡ ok (some (q, px0 a), s₁)) (d : Leads P root a q place₁ s s₁)
      (ha : a < maxva) (e : last ≡ a + n * pgsize) (un : Unmapped (suc n) a s) where
    s₂ : Vm P
    s₂ = written P root a q place₁ s s₁ d ha (first_entry pa)

    maps₂ :
        (va : ℕ)
        → va < maxva
        → mapping root s₂.table va
          ≡ (if a / pgsize == va / pgsize then some (first_entry pa) else mapping root s.table va)
    unfolding s₂ first_entry
    maps₂ = mapping-written P root a q place₁ s s₁ d ha (first_entry pa)

    tree₂ : Tree P root place₁ s₂
    unfolding s₂
    tree₂ = written-Tree P root a q place₁ s s₁ d ha (first_entry pa)

    round₂ : mappages_from P (suc k) root a last pa perm s ≡ (
        if a == last
        then ok (true, s₂)
        else mappages_from P k root (a + pgsize) last (pa + pgsize) perm s₂)
    unfolding s₂
    round₂ =
        round k a last pa q (px0 a) s s₁ w (
          not_valid P root a q place₁ s s₁ d ha (first_entry pa) (un a (omega arith) (omega arith)))

    unmapped₂ : last < maxva → Unmapped n (a + pgsize) s₂
    unmapped₂ l va h h' =
        maps₂ va (omega (arith, e)) ∙ ground (arith, un va (omega arith) (omega arith))

    step :
        last < maxva
        → ((t : Vm P)
            → Tree P root place₁ t
            → n ≢ 0
            → Unmapped n (a + pgsize) t
            → Maps n
                (a + pgsize)
                (pa + pgsize)
                t
                (mappages_from P k root (a + pgsize) last (pa + pgsize) perm t))
        → Maps (suc n) a pa s (mappages_from P (suc k) root a last pa perm s)
    step l ih = elim (Bool-cases (a == last)) [
      | inl end ↦ (
        1,
        place₁,
        s₂,
        true,
        round₂ ∙ rw end refl,
        inl (refl, ground (arith, end, e)),
        tree₂,
        λ va hv.
            no_pages (mapping root s₂.table) (a + pgsize) (pa + pgsize) va
            ∙ with_pages_step (mapping root s.table) (mapping root s₂.table) a pa 0 maps₂ va hv,
      )
      | inr more ↦
          let (m, place', s', b, e', c, tree', maps') =
            ih s₂ tree₂ (ground (arith, more, e)) (unmapped₂ l) in
          (
            suc m,
            place',
            s',
            b,
            round₂ ∙ rw more e',
            ground (arith, c),
            tree',
            λ va hv.
                maps' va hv
                ∙ with_pages_step (mapping root s.table) (mapping root s₂.table) a pa m maps₂ va hv,
          )
    ]

  mappages_from-Maps :
      (k n a last pa : ℕ) (place : ℕ → Place) (s : Vm P)
      → Tree P root place s
      → n < k
      → last ≡ a + n * pgsize
      → last < maxva
      → Unmapped (suc n) a s
      → Maps (suc n) a pa s (mappages_from P k root a last pa perm s)
  unfolding mappages_from
  mappages_from-Maps zero n a last pa place s tree h e l un = absurd (omega arith)
  mappages_from-Maps (suc k) n a last pa place s tree h e l un =
      let (place₁, s₁, r) = walk-Leads P root place s a tree (omega arith) in
      elim r [
        | inl (w, tree₁, maps) ↦ (
          0,
          place₁,
          s₁,
          false,
          ground (arith, w),
          inr (refl, omega arith),
          tree₁,
          λ va hv. maps va ∙ ground arith,
        )
        | inr (q, w, d) ↦
            step k n a last pa q place₁ s s₁ w d (omega arith) e un l λ t tree' n₀ un'.
              let one_less : suc (n - 1) ≡ n = omega arith in
              subst
                (λ (x : ℕ).
                  Maps x (a + pgsize) (pa + pgsize) t
                    (mappages_from P k root (a + pgsize) last (pa + pgsize) perm t))
                one_less
                (mappages_from-Maps k (n - 1) (a + pgsize) last (pa + pgsize) place₁ t tree'
                  (omega arith) (omega (arith, n₀)) l
                  (subst (λ (x : ℕ). Unmapped x (a + pgsize) t) (sym one_less) un'))
      ]

  -- mappages of whole pages that are not mapped, below MAXVA, in a page table whose pages are not
  -- shared: it does not panic and keeps the page table so. It answers 0 with the pages mapped to the
  -- pages from `pa` on, or -1 with fewer of them mapped, from the first on; every other address is
  -- mapped as before.
  pub mappages-Maps :
      (n va pa : ℕ) (place : ℕ → Place) (s : Vm P)
      → Tree P root place s
      → va % pgsize ≡ 0
      → va + suc n * pgsize ≤ maxva
      → Unmapped (suc n) va s
      → Maps (suc n) va pa s (mappages P root va (suc n * pgsize) pa perm s)
  unfolding mappages
  mappages-Maps n va pa place s tree al h un =
      let size : ℕ = suc n * pgsize in
      let loop =
        λ (a l : ℕ). mappages_from P (suc (suc ((maxva - a) / pgsize))) root a l pa perm s in
      let first : pgrounddown va ≡ va = omega arith in
      let last : pgrounddown ((va + size + 2 ^ 64 - 1) % 2 ^ 64) ≡ va + n * pgsize = omega arith in
      let some_pages : (size == 0) ≡ false = ground arith in
      let same : mappages P root va size pa perm s ≡ loop va (va + n * pgsize) =
        rw some_pages (ap (λ (l : ℕ). loop (pgrounddown va) l) last)
        ∙ ap (λ (a : ℕ). loop a (va + n * pgsize)) first in
      subst (Maps (suc n) va pa s) (sym same) (
        mappages_from-Maps (suc (suc ((maxva - va) / pgsize))) n va (va + n * pgsize) pa place s
          tree (omega arith) refl (omega arith) un)
