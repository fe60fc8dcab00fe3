-- ===== src/Vm.antt =====
-- kernel/vm.c: Sv39 page tables, on the words of the page-table pages. A `pagetable_t` is the address
-- of a page; a `pte_t *` is such an address with an index. A page is used for page-table entries
-- (`table`) or for bytes (`mem`), so these are two functions of the address. The allocator is the
-- interface `Pages`, which Kalloc fills.
pub mod Tree
pub mod Rounds
pub mod Leaves
pub mod Walk
pub mod Maps
pub mod Kernel
pub mod Lookup
pub mod Remap
pub mod User
pub mod Copy
mod Tests
use os_spring.Prelude.{
  ℕ, zero, suc, ◌+◌, ◌-◌, ◌*◌, ◌/◌, ◌%◌, ◌^◌, ◌≤◌, ◌<◌, ◌≡◌, ◌≢◌, ◌⊎◌, ◌↔◌, inl, inr, refl, sym,
  subst, ap, ◌∙◌, fun_ext, List, [], ◌∷◌, ◌++◌, map, Bool, true, false, not, ◌&&◌, ◌||◌, Option,
  none, some, some-injective, arith, All, All-map, length, get_elem?, get_or, set, take, drop,
  replicate, length-append, length-set, get_or-set_self, get_elem?-set_self, get_elem?-set_ne,
  get_or-set_ne, ℤ, pos, negsuc, sub_ℕ, sub_ℕ-eq_zero, ltb, leb, ◌==◌, ==_iff, Bool-cases,
  Option-cases, if◌then◌else◌, Outcome, ok, panic, fault, no_fuel, ◌>>=◌,
}

pub record Flags : Type 0 where
  pub v : Bool
  pub r : Bool
  pub w : Bool
  pub x : Bool
  pub u : Bool
  pub cow : Bool

-- A pte_t by its fields: the page number in the bits from 10 on, and PTE_V to PTE_COW. The bits 6
-- to 9 are used by no code.
pub record Pte : Type 0 where
  pub ppn : ℕ
  pub flags : Flags

abbrev pub pgsize : ℕ
pgsize = 4096

abbrev pub maxva : ℕ
maxva = 2 ^ 38

abbrev pub no_flags : Flags
no_flags = record { v = false; r = false; w = false; x = false; u = false; cow = false }

-- The entry 0.
abbrev pub no_pte : Pte
no_pte = record { ppn = 0; flags = no_flags }

abbrev pub pte2pa : Pte → ℕ
pte2pa e = e.ppn * pgsize

abbrev pub pgrounddown : ℕ → ℕ
pgrounddown a = a / pgsize * pgsize

abbrev pub pgroundup : ℕ → ℕ
pgroundup sz = (sz + pgsize - 1) / pgsize * pgsize

abbrev pub px2 : ℕ → ℕ
px2 va = va / 2 ^ 30 % 512

abbrev pub px1 : ℕ → ℕ
px1 va = va / 2 ^ 21 % 512

abbrev pub px0 : ℕ → ℕ
px0 va = va / 2 ^ 12 % 512

-- kalloc, kfree, inckref and deckref of kernel/kalloc.c: the operations, with the laws that the proofs use.
pub record Pages : Type 1 where
  pub State : Type 0
  pub kalloc : State → Option ℕ × State
  pub kfree : ℕ → State → Outcome State
  pub inckref : ℕ → State → State
  pub deckref : ℕ → State → State
  pub IsValid : State → Type 0
  pub InUse : State → ℕ → Type 0
  pub empty : (s s' : State) → kalloc s ≡ (none, s') → s' ≡ s
  pub fresh :
      (s s' : State) (p : ℕ)
      → IsValid s
      → kalloc s ≡ (some p, s')
      → IsValid s'
        × ¬ InUse s p
        × InUse s' p
        × (p % pgsize ≡ 0)
        × ((q : ℕ) → InUse s q → InUse s' q)

abbrev pub store {ℓ} : {A : Type ℓ} → (ℕ → A) → ℕ → A → ℕ → A
store f i a j = if i == j then a else f j

-- memset(p, c, n) and memmove from another area, on bytes.
abbrev pub fill : (ℕ → ℕ) → ℕ → ℕ → ℕ → ℕ → ℕ
fill mem p c n a = if leb p a && ltb a (p + n) then c else mem a

module _ (P : Pages) where
  open P use {State, kalloc, kfree, inckref}

  pub record Vm : Type 0 where
    pub pages : State
    pub table : ℕ → ℕ → Pte
    pub mem : ℕ → ℕ

  -- *pte = e
  abbrev pub set_pte : ℕ → ℕ → Pte → Vm → Vm
  set_pte pt i e s = record s { table = store s.table pt (store (s.table pt) i e) }

  -- One round of the loop of walk, at the entry `i` of the page-table page `pt`.
  pub walk_round : Bool → ℕ → ℕ → Vm → Option ℕ × Vm
  walk_round alloc pt i s =
      let e = s.table pt i in
      if e.flags.v
      then (some (pte2pa e), s)
      else if not alloc
      then (none, s)
      else let (page, pages) = kalloc s.pages in
        elim page [
          | none ↦ (none, record s { pages = pages })
          | some p ↦ (
            some p,
            set_pte pt i (record { ppn = p / pgsize; flags = record no_flags { v = true } })
                (record s { pages = pages; table = store s.table p (λ _. no_pte) }),
          )
        ]

  -- walk; the answer is the page and the index of the entry, or none for 0.
  pub walk : ℕ → ℕ → Bool → Vm → Outcome (Option (ℕ × ℕ) × Vm)
  unfolding walk_round
  walk pagetable va alloc s =
      if leb maxva va
      then panic
      else let (mid, s₁) = walk_round alloc pagetable (px2 va) s in
        elim mid [
          | none ↦ ok (none, s₁)
          | some p ↦
              let (low, s₂) = walk_round alloc p (px1 va) s₁ in
              elim low [ none ↦ ok (none, s₂) | some q ↦ ok (some (q, px0 va), s₂) ]
        ]

  -- walkaddr, which changes nothing; none is its 0.
  pub walkaddr : ℕ → ℕ → Vm → Outcome (Option ℕ)
  walkaddr pagetable va s =
      if leb maxva va
      then ok none
      else walk pagetable va false s >>= λ (found, s'). elim found [
        | none ↦ ok none
        | some (pt, i) ↦
            let e = s'.table pt i in
            if not e.flags.v
            then ok none
            else if not e.flags.u
            then ok none
            else ok (some (pte2pa e))
      ]

  -- The loop of mappages from `a` on; true is its 0, false its -1.
  pub mappages_from : ℕ → ℕ → ℕ → ℕ → ℕ → Flags → Vm → Outcome (Bool × Vm)
  mappages_from zero pagetable a last pa perm s = no_fuel
  mappages_from (suc k) pagetable a last pa perm s = walk pagetable a true s >>= λ (found, s₁).
      elim found [
        | none ↦ ok (false, s₁)
        | some (pt, i) ↦
            let s₂ =
              set_pte pt i (record { ppn = pa / pgsize; flags = record perm { v = true } }) s₁ in
            let rest = mappages_from k pagetable (a + pgsize) last (pa + pgsize) perm s₂ in
            if (s₁.table pt i).flags.v then panic else if a == last then ok (true, s₂) else rest
      ]

  -- walk panics once `a` has reached MAXVA, which bounds the rounds.
  pub mappages : ℕ → ℕ → ℕ → ℕ → Flags → Vm → Outcome (Bool × Vm)
  mappages pagetable va size pa perm s =
      let a = pgrounddown va in
      let last = pgrounddown ((va + size + 2 ^ 64 - 1) % 2 ^ 64) in
      if size == 0
      then panic
      else mappages_from (suc (suc ((maxva - a) / pgsize))) pagetable a last pa perm s

  -- The loop of uvmunmap; the first argument is the pages left.
  pub unmap_from : ℕ → ℕ → ℕ → Bool → Vm → Outcome Vm
  unmap_from zero pagetable a do_free s = ok s
  unmap_from (suc k) pagetable a do_free s = walk pagetable a false s >>= λ (found, s₁).
      elim found [
        | none ↦ panic
        | some (pt, i) ↦
            let f = (s₁.table pt i).flags in
            if not f.v
            then panic
            else if not (f.r || (f.w || (f.x || (f.u || f.cow))))
            then panic
            else (if do_free then kfree (pte2pa (s₁.table pt i)) s₁.pages else ok s₁.pages)
              >>= λ pages.
                  unmap_from k pagetable (a + pgsize) do_free
                    (set_pte pt i no_pte (record s₁ { pages = pages }))
      ]

  pub uvmunmap : ℕ → ℕ → ℕ → Bool → Vm → Outcome Vm
  uvmunmap pagetable va npages do_free s =
      if not (va % pgsize == 0) then panic else unmap_from npages pagetable va do_free s
