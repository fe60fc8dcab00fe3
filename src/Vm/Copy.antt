-- ===== src/Vm/Copy.antt =====
-- kernel/vm.c: copying between the kernel and a user's pages. Both stand in one physical memory;
-- the page table is not changed, so only the memory is answered. true is the source's 0.
pub mod In
use os_spring.Prelude.{
  ℕ, zero, suc, ◌+◌, ◌-◌, ◌*◌, ◌/◌, ◌%◌, ◌^◌, ◌≤◌, ◌<◌, ◌≡◌, ◌≢◌, ◌⊎◌, ◌↔◌, inl, inr, refl, sym,
  subst, ap, ◌∙◌, fun_ext, List, [], ◌∷◌, ◌++◌, map, Bool, true, false, not, ◌&&◌, ◌||◌, Option,
  none, some, some-injective, arith, All, All-map, length, get_elem?, get_or, set, take, drop,
  replicate, length-append, length-set, get_or-set_self, get_elem?-set_self, get_elem?-set_ne,
  get_or-set_ne, ℤ, pos, negsuc, sub_ℕ, sub_ℕ-eq_zero, ltb, leb, ◌==◌, ==_iff, Bool-cases,
  Option-cases, if◌then◌else◌, Outcome, ok, panic, fault, no_fuel, ◌>>=◌,
}
use os_spring.Vm.{Pages, Vm, pgsize, pgrounddown, walkaddr}
use os_spring.Cstring.{Mem, store, memmove}

module _ (P : Pages) where
  -- With fuel: each round copies a byte at least.
  copyout_from : ℕ → ℕ → ℕ → ℕ → ℕ → Vm P → Outcome (Bool × Mem)
  copyout_from zero pagetable dstva src len s = no_fuel
  copyout_from (suc k) pagetable dstva src len s =
      let va0 = pgrounddown dstva in
      let room = pgsize - (dstva - va0) in
      let n = if ltb len room then len else room in
      let next = λ (pa0 : ℕ).
        copyout_from k pagetable (va0 + pgsize) (src + n) (len - n)
          (record s { mem = memmove (pa0 + (dstva - va0)) src n s.mem }) in
      if len == 0
      then ok (true, s.mem)
      else walkaddr P pagetable va0 s >>= λ found. elim found [
        | none ↦ ok (false, s.mem)
        | some pa0 ↦ next pa0
      ]

  pub copyout : ℕ → ℕ → ℕ → ℕ → Vm P → Outcome (Bool × Mem)
  copyout pagetable dstva src len s = copyout_from (suc len) pagetable dstva src len s

  pub copyin_from : ℕ → ℕ → ℕ → ℕ → ℕ → Vm P → Outcome (Bool × Mem)
  copyin_from zero pagetable dst srcva len s = no_fuel
  copyin_from (suc k) pagetable dst srcva len s =
      let va0 = pgrounddown srcva in
      let room = pgsize - (srcva - va0) in
      let n = if ltb len room then len else room in
      let next = λ (pa0 : ℕ).
        copyin_from k pagetable (dst + n) (va0 + pgsize) (len - n)
          (record s { mem = memmove dst (pa0 + (srcva - va0)) n s.mem }) in
      if len == 0
      then ok (true, s.mem)
      else walkaddr P pagetable va0 s >>= λ found. elim found [
        | none ↦ ok (false, s.mem)
        | some pa0 ↦ next pa0
      ]

  pub copyin : ℕ → ℕ → ℕ → ℕ → Vm P → Outcome (Bool × Mem)
  copyin pagetable dst srcva len s = copyin_from (suc len) pagetable dst srcva len s

  -- The inner loop of copyinstr: whether it met a 0, the room left, the destination and the memory.
  copy_string : ℕ → ℕ → ℕ → ℕ → Mem → Bool × ℕ × ℕ × Mem
  copy_string zero p dst max mem = (false, max, dst, mem)
  copy_string (suc n) p dst max mem =
      let rest = copy_string n (p + 1) (dst + 1) (max - 1) (store mem dst (mem p)) in
      if mem p == 0 then (true, max, dst, store mem dst 0) else rest

  copyinstr_from : ℕ → ℕ → ℕ → ℕ → ℕ → Vm P → Outcome (Bool × Mem)
  copyinstr_from zero pagetable dst srcva max s = no_fuel
  copyinstr_from (suc k) pagetable dst srcva max s =
      let va0 = pgrounddown srcva in
      let room = pgsize - (srcva - va0) in
      let n = if ltb max room then max else room in
      let next = λ (pa0 : ℕ).
        let (got_null, max', dst', mem') = copy_string n (pa0 + (srcva - va0)) dst max s.mem in
        let rest = copyinstr_from k pagetable dst' (va0 + pgsize) max' (record s { mem = mem' }) in
        if got_null then ok (true, mem') else rest in
      if max == 0
      then ok (false, s.mem)
      else walkaddr P pagetable va0 s >>= λ found. elim found [
        | none ↦ ok (false, s.mem)
        | some pa0 ↦ next pa0
      ]

  pub copyinstr : ℕ → ℕ → ℕ → ℕ → Vm P → Outcome (Bool × Mem)
  copyinstr pagetable dst srcva max s = copyinstr_from (suc max) pagetable dst srcva max s
