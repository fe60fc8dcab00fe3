-- ===== src/Vm/User.antt =====
-- kernel/vm.c: the address spaces of processes, over walk, mappages and uvmunmap.
use os_spring.Prelude.{
  ℕ, zero, suc, ◌+◌, ◌-◌, ◌/◌, Bool, true, false, not, ◌&&◌, ◌||◌, Option, none, some, ltb, leb,
  if◌then◌else◌, Outcome, ok, panic, fault, no_fuel, ◌>>=◌,
}
use os_spring.Vm.{
  Pages, Vm, Flags, no_pte, pte2pa, pgsize, pgroundup, fill, store, set_pte, walk, mappages,
  uvmunmap,
}
use os_spring.Cstring.{memmove}

-- PTE_W | PTE_R | PTE_X | PTE_U, and PTE_R | PTE_U | xperm
abbrev user_all : Flags
user_all = record { v = false; r = true; w = true; x = true; u = true; cow = false }

abbrev user_read : Flags → Flags
user_read xperm = record xperm { r = true; u = true }

-- The flags of a page that a child shares.
abbrev shared : Flags → Flags
shared f = record f { cow = true; w = false }

module _ (P : Pages) where
  open P use {State, kalloc, kfree, inckref}

  -- kfree of a page, in the state of the page tables
  abbrev free_page : ℕ → Vm P → Outcome (Vm P)
  free_page pa s = kfree pa s.pages >>= λ pages. ok (record s { pages = pages })

  kvmmap : ℕ → ℕ → ℕ → ℕ → Flags → Vm P → Outcome (Vm P)
  kvmmap kpgtbl va pa sz perm s =
      mappages P kpgtbl va sz pa perm s >>= λ (done, s'). if done then ok s' else panic

  pub uvmcreate : Vm P → Option ℕ × Vm P
  uvmcreate s =
      let (page, pages) = kalloc s.pages in
      elim page [
        | none ↦ (none, record s { pages = pages })
        | some p ↦ (some p, record s { pages = pages; table = store s.table p (λ _. no_pte) })
      ]

  -- kalloc's answer is used unchecked: with no page free this writes through a null pointer.
  uvmfirst : ℕ → ℕ → ℕ → Vm P → Outcome (Vm P)
  uvmfirst pagetable src sz s =
      let (page, pages) = kalloc s.pages in
      if leb pgsize sz then panic else elim page [
        | none ↦ fault
        | some p ↦
            mappages P pagetable 0 pgsize p user_all
              (record s { pages = pages; mem = fill s.mem p 0 pgsize })
            >>= λ (done, s'). ok (record s' { mem = memmove p src sz s'.mem })
      ]

  pub uvmdealloc : ℕ → ℕ → ℕ → Vm P → Outcome (ℕ × Vm P)
  uvmdealloc pagetable oldsz newsz s =
      if leb oldsz newsz
      then ok (oldsz, s)
      else if ltb (pgroundup newsz) (pgroundup oldsz)
      then (uvmunmap P pagetable (pgroundup newsz) ((pgroundup oldsz - pgroundup newsz) / pgsize)
            true s
          >>= λ s'. ok (newsz, s'))
      else ok (newsz, s)

  -- uvmdealloc(pagetable, a, oldsz); return 0;
  abbrev undo : ℕ → ℕ → ℕ → Vm P → Outcome (ℕ × Vm P)
  undo pagetable a oldsz s = uvmdealloc pagetable a oldsz s >>= λ (_, s'). ok (0, s')

  -- The loop of uvmalloc from `a` on; 0 is its answer where memory runs out.
  uvmalloc_from : ℕ → ℕ → ℕ → ℕ → ℕ → Flags → Vm P → Outcome (ℕ × Vm P)
  uvmalloc_from zero pagetable a oldsz newsz xperm s = no_fuel
  uvmalloc_from (suc k) pagetable a oldsz newsz xperm s =
      let next = λ (s' : Vm P). uvmalloc_from k pagetable (a + pgsize) oldsz newsz xperm s' in
      let (page, pages) = kalloc s.pages in
      if leb newsz a then ok (newsz, s) else elim page [
        | none ↦ undo pagetable a oldsz (record s { pages = pages })
        | some p ↦
            mappages P pagetable a pgsize p (user_read xperm)
              (record s { pages = pages; mem = fill s.mem p 0 pgsize })
            >>= λ (done, s'). elim done [
              | true ↦ next s'
              | false ↦ free_page p s' >>= undo pagetable a oldsz
            ]
      ]

  pub uvmalloc : ℕ → ℕ → ℕ → Flags → Vm P → Outcome (ℕ × Vm P)
  uvmalloc pagetable oldsz newsz xperm s =
      let start = pgroundup oldsz in
      if ltb newsz oldsz
      then ok (oldsz, s)
      else uvmalloc_from (suc ((newsz - start) / pgsize + 1)) pagetable start start newsz xperm s

  -- The loop of uvmcopy from address `i` on; true is its 0, false its -1.
  uvmcopy_from : ℕ → ℕ → ℕ → ℕ → ℕ → Vm P → Outcome (Bool × Vm P)
  uvmcopy_from zero old new i sz s = no_fuel
  uvmcopy_from (suc k) old new i sz s =
      let next = λ (s' : Vm P). uvmcopy_from k old new (i + pgsize) sz s' in
      if leb sz i
      then ok (true, s)
      else walk P old i false s >>= λ (found, s₁). elim found [
        | none ↦ panic
        | some (pt, n) ↦
            let e = s₁.table pt n in
            if not e.flags.v
            then panic
            else mappages P new i pgsize (pte2pa e) (shared e.flags) s₁ >>= λ (done, s₂).
                elim done [
                  | true ↦ next (record s₂ { pages = inckref (pte2pa e) s₂.pages })
                  | false ↦ uvmunmap P new 0 (i / pgsize) true s₂ >>= λ s₃. ok (false, s₃)
                ]
      ]

  pub uvmcopy : ℕ → ℕ → ℕ → Vm P → Outcome (Bool × Vm P)
  uvmcopy old new sz s = uvmcopy_from (suc (sz / pgsize + 1)) old new 0 sz s

  pub uvmclear : ℕ → ℕ → Vm P → Outcome (Vm P)
  uvmclear pagetable va s = walk P pagetable va false s >>= λ (found, s'). elim found [
    | none ↦ panic
    | some (pt, i) ↦
        let e = s'.table pt i in
        ok (set_pte P pt i (record e { flags = record (e.flags) { u = false } }) s')
  ]

  -- The loop of freewalk over the entries from `i` on, with `walk_child` its recursive call.
  freewalk_from : (ℕ → Vm P → Outcome (Vm P)) → ℕ → ℕ → ℕ → Vm P → Outcome (Vm P)
  freewalk_from walk_child zero i pagetable s = ok s
  freewalk_from walk_child (suc k) i pagetable s =
      let e = s.table pagetable i in
      let next = λ (s' : Vm P). freewalk_from walk_child k (i + 1) pagetable s' in
      if e.flags.v && not (e.flags.r || (e.flags.w || e.flags.x))
      then (walk_child (pte2pa e) s >>= λ s'. next (set_pte P pagetable i no_pte s'))
      else if e.flags.v
      then panic
      else next s

  -- The first argument bounds the depth; a page table has three levels.
  freewalk : ℕ → ℕ → Vm P → Outcome (Vm P)
  freewalk zero pagetable s = no_fuel
  freewalk (suc d) pagetable s =
      freewalk_from (freewalk d) 512 0 pagetable s >>= free_page pagetable

  pub uvmfree : ℕ → ℕ → Vm P → Outcome (Vm P)
  uvmfree pagetable sz s =
      (if ltb 0 sz then uvmunmap P pagetable 0 (pgroundup sz / pgsize) true s else ok s)
      >>= freewalk 3 pagetable
