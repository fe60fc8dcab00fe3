-- ===== src/Kalloc.antt =====
-- kernel/kalloc.c: the allocator of physical pages with reference counts for copy-on-write.
-- The free list is the list of its pages, head first; the counters are a function of the index;
-- `mem` is what the pages hold. `kend` is the linker's symbol `end`, a parameter.
-- Each critical section is one step: the locks of kmem and kref are modelled in `Spinlock`.
pub mod Index
pub mod Invariant
pub mod Init
pub mod Report
pub mod Surplus
mod Tests
use os_spring.Prelude.{
  ℕ, zero, suc, ◌+◌, ◌-◌, ◌*◌, ◌/◌, ◌%◌, ◌^◌, List, [], ◌∷◌, Option, none, some, ltb, leb, ◌==◌,
  if◌then◌else◌, not, ◌&&◌, ◌||◌, Outcome, ok, panic, fault, no_fuel, ◌>>=◌,
}

abbrev pub pgsize : ℕ
pgsize = 4096

abbrev pub kernbase : ℕ
kernbase = 0x8000_0000

abbrev pub phystop : ℕ
phystop = kernbase + 128 * 1024 * 1024

abbrev pub pgroundup : ℕ → ℕ
pgroundup sz = (sz + pgsize - 1) / pgsize * pgsize

abbrev pgrounddown : ℕ → ℕ
pgrounddown a = a / pgsize * pgsize

-- uint64 counters
abbrev inc64 : ℕ → ℕ
inc64 n = (n + 1) % 2 ^ 64

abbrev dec64 : ℕ → ℕ
dec64 n = (n + 2 ^ 64 - 1) % 2 ^ 64

-- The links of the free list, which stand in the first words of the free pages, are `freelist`.
pub record Kmem : Type 0 where
  pub freelist : List ℕ
  pub ref : ℕ → ℕ
  pub mem : ℕ → ℕ

abbrev pub update : (ℕ → ℕ) → ℕ → ℕ → ℕ → ℕ
update f i v j = if i == j then v else f j

-- memset(dst, c, n) on the memory (kernel/string.c)
abbrev pub fill : (ℕ → ℕ) → ℕ → ℕ → ℕ → ℕ → ℕ
fill mem dst c n a = if leb dst a && ltb a (dst + n) then c else mem a

module _ (kend : ℕ) where
  unfoldable pub refindex : ℕ → ℕ
  refindex pa = (pgrounddown pa - kend) / pgsize

  pub inckref : ℕ → Kmem → Kmem
  inckref pa k = record k { ref = update k.ref (refindex pa) (inc64 (k.ref (refindex pa))) }

  pub deckref : ℕ → Kmem → Kmem
  deckref pa k = record k { ref = update k.ref (refindex pa) (dec64 (k.ref (refindex pa))) }

  pub kfree : ℕ → Kmem → Outcome Kmem
  kfree pa k =
      if not (pa % pgsize == 0) || (ltb pa kend || leb phystop pa)
      then panic
      else if ltb 1 (k.ref (refindex pa))
      then ok (record k { ref = update k.ref (refindex pa) (dec64 (k.ref (refindex pa))) })
      else ok (record {
        freelist = pa ∷ k.freelist;
        ref = update k.ref (refindex pa) (dec64 (k.ref (refindex pa)));
        mem = fill k.mem pa 1 pgsize;
      })

  unfoldable pub kalloc : Kmem → Option ℕ × Kmem
  kalloc k = elim k.freelist [
    | [] ↦ (none, k)
    | r ∷ rest ↦ (
      some r,
      record {
        freelist = rest;
        ref = update k.ref (refindex r) (inc64 (k.ref (refindex r)));
        mem = fill k.mem r 5 pgsize;
      },
    )
  ]

  -- for (; p + PGSIZE <= pa_end; p += PGSIZE) kfree(p);
  pub freerange_from : ℕ → ℕ → ℕ → Kmem → Outcome Kmem
  freerange_from zero p pa_end k = no_fuel
  freerange_from (suc n) p pa_end k =
      let rest = kfree p k >>= freerange_from n (p + pgsize) pa_end in
      if leb (p + pgsize) pa_end then rest else ok k

  -- The fuel is one more than the number of pages below the end.
  pub freerange : ℕ → ℕ → Kmem → Outcome Kmem
  freerange pa_start pa_end k = freerange_from (suc (pa_end / pgsize)) (pgroundup pa_start) pa_end k

  -- for (; p + PGSIZE <= end; p += PGSIZE) kref.ref[refindex(p)] = 0;
  pub krefinit_from : ℕ → ℕ → ℕ → Kmem → Outcome Kmem
  krefinit_from zero p pa_end k = no_fuel
  krefinit_from (suc n) p pa_end k =
      let rest =
        krefinit_from n (p + pgsize) pa_end (record k { ref = update k.ref (refindex p) 0 }) in
      if leb (p + pgsize) pa_end then rest else ok k

  pub krefinit : ℕ → ℕ → Kmem → Outcome Kmem
  krefinit start pa_end k = krefinit_from (suc (pa_end / pgsize)) (pgroundup start) pa_end k

  -- The statics start as zeros.
  pub kinit : (ℕ → ℕ) → Outcome Kmem
  kinit mem =
      freerange kend phystop (record { freelist = []; ref = λ _. 0; mem = mem })
      >>= krefinit kend phystop

-- while (page->next != 0) { free_bytes += PGSIZE; page = page->next; }
free_bytes_from : ℕ → List ℕ → ℕ
free_bytes_from page [] = 0
free_bytes_from page (next ∷ rest) = pgsize + free_bytes_from next rest

-- `page->next` with an empty list loads through the null pointer.
pub calculate_free_ram : Kmem → Outcome ℕ
calculate_free_ram k = elim k.freelist [ [] ↦ fault | page ∷ rest ↦ ok (free_bytes_from page rest) ]
