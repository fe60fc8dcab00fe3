-- ===== src/Trap/Cow.antt =====
-- The copy that a store to a copy-on-write page asks of usertrap in kernel/trap.c.
use os_spring.Prelude.{
  ℕ, ◌+◌, ◌/◌, ◌%◌, ◌≤◌, ◌<◌, ◌≡◌, ◌⊎◌, inl, inr, refl, sym, subst, ap, ◌∙◌, true, false, not,
  Option, none, some, some-injective, arith, ◌==◌, Bool-cases, if◌then◌else◌, ok, fault, ◌>>=◌,
}
use os_spring.Cstring.{memmove}
use os_spring.Cstring.Move.{memmove_lem}
use os_spring.Vm.{
  Pages, Vm, Pte, no_pte, pte2pa, pgsize, maxva, pgrounddown, px2, px1, px0, set_pte, mappages,
}
use os_spring.Vm.Tree.{Place, Places, at_low, mapping}
use os_spring.Vm.Rounds.{Tree}
use os_spring.Vm.Walk.{Leads}
use os_spring.Vm.Maps.{reached}
use os_spring.Vm.Lookup.{walk_lookup}
use os_spring.Vm.Remap.{remap_lem}
use os_spring.Trap.{own_flags, copy_page, store_fault}

module _ (P : Pages) (root : ℕ) where
  open P use {State, kalloc, inckref, deckref}

  -- The map with the page of `va` mapped to the page `p` for its process alone.
  abbrev with_own : (ℕ → Option Pte) → ℕ → ℕ → Pte → ℕ → Option Pte
  with_own f va p e a =
      if va / pgsize == a / pgsize
      then some (record { ppn = p / pgsize; flags = record (own_flags e.flags) { v = true } })
      else f a

  -- A page that is mapped for the user and copy-on-write, and what usertrap has made of it.
  pub record Copied (stval p : ℕ) (e : Pte) (pages : State) (place : ℕ → Place) (s s' : Vm P)
      : Type 0 where
    pub maps :
        (a : ℕ) → a < maxva → mapping root s'.table a ≡ with_own (mapping root s.table) stval p e a
    pub places : Places root place s'.table
    pub bytes : (i : ℕ) → i < pgsize → s'.mem (p + i) ≡ s.mem (pte2pa e + i)
    pub others : (a : ℕ) → (a < p) ⊎ (p + pgsize ≤ a) → s'.mem a ≡ s.mem a
    pub counts : s'.pages ≡ inckref p (deckref (pte2pa e) pages)

  -- The state in which copy_page maps the new page.
  abbrev ready : ℕ → ℕ → Vm P → Option ℕ × State → ℕ → Vm P
  ready pt i s r mem =
      let e = s.table pt i in
      set_pte P pt i no_pte
        (record s { pages = deckref (pte2pa e) r.1; mem = memmove mem (pte2pa e) pgsize s.mem })

  copy_page_run :
      (va p q i : ℕ) (pages : State) (s t : Vm P)
      → kalloc s.pages ≡ (some p, pages)
      → mappages P root va pgsize p (own_flags (s.table q i).flags) (ready q i s (some p, pages) p)
        ≡ ok (true, t)
      → copy_page P root va q i s ≡ ok (false, record t { pages = inckref p t.pages })
  unfolding copy_page
  copy_page_run va p q i pages s t got mapped =
      ap
        (λ (r : Option ℕ × State). elim r.0 [
          | none ↦ fault
          | some mem ↦
              mappages P root va pgsize mem (own_flags (s.table q i).flags) (ready q i s r mem)
              >>= λ (done, s'). ok (not done, record s' { pages = inckref mem s'.pages })
        ])
        got
      ∙ rw mapped refl

  copy_page-Copied :
      (va p q : ℕ) (pages : State) (place : ℕ → Place) (s : Vm P)
      → va % pgsize ≡ 0
      → va < maxva
      → Leads P root va q place s s
      → kalloc s.pages ≡ (some p, pages)
      → (s' : Vm P) × (copy_page P root va q (px0 va) s ≡ ok (false, s'))
        × Copied va p (s.table q (px0 va)) pages place s s'
  copy_page-Copied va p q pages place s al h d got =
      let e = s.table q (px0 va) in
      let cleared = ready q (px0 va) s (some p, pages) p in
      let (t, mapped, same_pages, same_mem, places, maps) =
        remap_lem P root va q place s cleared d h refl p (own_flags e.flags) al in
      (
        record t { pages = inckref p t.pages },
        copy_page_run va p q (px0 va) pages s t got mapped,
        record {
          maps = maps;
          places = places;
          bytes = λ i hi.
              ap (λ (m : ℕ → ℕ). m (p + i)) same_mem
              ∙ memmove_lem p (pte2pa e) pgsize s.mem (p + i)
              ∙ ground (arith, hi);
          others = λ a ha.
              ap (λ (m : ℕ → ℕ). m a) same_mem
              ∙ memmove_lem p (pte2pa e) pgsize s.mem a
              ∙ ground (arith, ha);
          counts = ap (inckref p) same_pages;
        },
      )

  same_mapping :
      (a b : ℕ) (t : ℕ → ℕ → Pte)
      → (px2 a ≡ px2 b) × (px1 a ≡ px1 b) × (px0 a ≡ px0 b)
      → mapping root t a ≡ mapping root t b
  same_mapping a b t (i, j, k) = rw (i, j, k) refl

  -- usertrap, for a store below MAXVA to a page that is mapped for the user and copy-on-write, with a
  -- page free and no page table shared: the process gets a writable page of its own with the same
  -- bytes. It is not killed, every other page is mapped as before, no other byte changes, and the
  -- counters of the old and the new page are lowered and raised.
  pub store_fault-Copied :
      (stval p : ℕ) (e : Pte) (pages : State) (place : ℕ → Place) (s : Vm P)
      → Tree P root place s
      → stval < maxva
      → mapping root s.table stval ≡ some e
      → (e.flags.u ≡ true) × (e.flags.cow ≡ true)
      → kalloc s.pages ≡ (some p, pages)
      → (s' : Vm P) × (store_fault P root stval s ≡ ok (false, s'))
        × Copied stval p e pages place s s'
  unfolding store_fault
  store_fault-Copied stval p e pages place s tree h mapped marks got =
      let va = pgrounddown stval in
      let same_page : mapping root s.table va ≡ mapping root s.table stval =
        same_mapping va stval s.table (omega arith, omega arith, omega arith) in
      let number : va / pgsize ≡ stval / pgsize = omega arith in
      elim (walk_lookup P root place s tree va (omega arith)) [
        | inl (w, gone) ↦ cc (sym gone ∙ same_page ∙ mapped)
        | inr (q, w, d) ↦
            let f = s.table q (px0 va) in
            let to : mapping root s.table va ≡ at_low s.table (px0 va) q =
              reached P root va q place s s d (omega arith) f in
            elim (Bool-cases f.flags.v) [
              | inr n ↦
                  let nothing : at_low s.table (px0 va) q ≡ none = rw n refl in
                  cc (sym nothing ∙ sym to ∙ same_page ∙ mapped)
              | inl v ↦
                  let found : at_low s.table (px0 va) q ≡ some f = rw v refl in
                  let same = some-injective f e (sym found ∙ sym to ∙ same_page ∙ mapped) in
                  let (s', run, c) =
                    copy_page-Copied va p q pages place s (omega arith) (omega arith) d got in
                  (
                    s',
                    rw
                        (
                          w,
                          v,
                          ap (λ (x : Pte). x.flags.u) same ∙ marks.0,
                          ap (λ (x : Pte). x.flags.cow) same ∙ marks.1,
                        )
                        run,
                    subst (λ (x : Pte). Copied stval p x pages place s s') same
                        (record {
                          maps = λ a ha.
                              c.maps a ha
                              ∙ ap
                                  (λ (x : ℕ).
                                    if x == a / pgsize
                                    then some (record {
                                      ppn = p / pgsize;
                                      flags = record (own_flags f.flags) { v = true };
                                    })
                                    else mapping root s.table a)
                                  number;
                          places = c.places;
                          bytes = c.bytes;
                          others = c.others;
                          counts = c.counts;
                        }),
                  )
            ]
      ]
