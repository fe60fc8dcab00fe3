-- ===== src/Sysproc.antt =====
-- kernel/sysproc.c and growproc of kernel/proc.c: the system calls on processes that do more than hand
-- their arguments on. The arguments are those that argint and argaddr fetch (Syscall).
pub mod Timeout
mod Tests
use os_spring.Prelude.{
  ℕ, zero, suc, ◌+◌, ◌-◌, ◌*◌, ◌/◌, ◌%◌, ◌^◌, ◌≤◌, ◌<◌, ◌≡◌, ◌≢◌, ◌⊎◌, ◌↔◌, inl, inr, refl, sym,
  subst, ap, ◌∙◌, fun_ext, List, [], ◌∷◌, ◌++◌, map, Bool, true, false, not, ◌&&◌, ◌||◌, Option,
  none, some, some-injective, arith, All, All-map, length, get_elem?, get_or, set, take, drop,
  replicate, length-append, length-set, get_or-set_self, get_elem?-set_self, get_elem?-set_ne,
  get_or-set_ne, ℤ, pos, negsuc, sub_ℕ, sub_ℕ-eq_zero, ltb, leb, ◌==◌, ==_iff, Bool-cases,
  Option-cases, if◌then◌else◌, Outcome, ok, panic, fault, no_fuel, ◌>>=◌,
}
use os_spring.Trap.{Clock}
use os_spring.Vm.{Pages, Vm, Flags, no_flags}
use os_spring.Vm.User.{uvmalloc, uvmdealloc}

-- How a turn of a system call that may wait ends: with its answer, or asleep.
pub data Turn : Type 0 where
  answers : ℤ → Turn
  sleeps : Turn

-- The loop of sys_sleep up to its next sleep(); `n` is the argument as it is compared with a uint.
pub sleep_turn : ℕ → ℕ → Bool → Clock → Turn
sleep_turn n ticks₀ killed c =
    if ltb ((c.ticks + 2 ^ 32 - ticks₀) % 2 ^ 32) n
    then (if killed then answers (negsuc 0) else sleeps)
    else answers (pos 0)

-- sys_sleep from its start; what it waits from is the second part.
pub sys_sleep : ℕ → Bool → Clock → Turn × ℕ
unfolding sleep_turn
sys_sleep n killed c = (sleep_turn n c.ticks killed c, c.ticks)

sys_uptime : Clock → ℕ
sys_uptime c = c.ticks

-- The int `n` added to a size, in uint64 arithmetic.
abbrev plus_int : ℕ → ℤ → ℕ
plus_int sz (pos n) = (sz + n) % 2 ^ 64
plus_int sz (negsuc n) = (sz + 2 ^ 64 - suc n) % 2 ^ 64

-- PTE_W
abbrev pte_w_perm : Flags
pte_w_perm = record no_flags { w = true }

module _ (P : Pages) where
  -- growproc: whether it answers 0, and p->sz.
  growproc : ℤ → ℕ → ℕ → Vm P → Outcome (Bool × ℕ × Vm P)
  growproc (pos n) pagetable sz s =
      if n == 0
      then ok (true, sz, s)
      else uvmalloc P pagetable sz (plus_int sz (pos n)) pte_w_perm s >>= λ (sz', s').
          if sz' == 0 then ok (false, sz, s') else ok (true, sz', s')
  growproc (negsuc n) pagetable sz s =
      uvmdealloc P pagetable sz (plus_int sz (negsuc n)) s >>= λ (sz', s'). ok (true, sz', s')

  -- none is the source's -1.
  sys_sbrk : ℤ → ℕ → ℕ → Vm P → Outcome (Option ℕ × ℕ × Vm P)
  unfolding growproc
  sys_sbrk n pagetable sz s =
      growproc n pagetable sz s >>= λ (done, sz', s'). ok (if done then some sz else none, sz', s')
