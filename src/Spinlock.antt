-- ===== src/Spinlock.antt =====
-- kernel/spinlock.c, with kernel/proc.h's struct cpu: spin locks and the nesting of push_off.
-- A CPU is named by a number. The nesting depth is an int far below its bounds.
pub mod Nesting
pub mod Exclusion
mod Tests
use os_spring.Prelude.{
  ℕ, zero, suc, ◌+◌, ◌-◌, ◌*◌, ◌/◌, ◌%◌, ◌^◌, ◌≤◌, ◌<◌, ◌≡◌, ◌≢◌, ◌⊎◌, ◌↔◌, inl, inr, refl, sym,
  subst, ap, ◌∙◌, fun_ext, List, [], ◌∷◌, ◌++◌, map, Bool, true, false, not, ◌&&◌, ◌||◌, Option,
  none, some, some-injective, arith, All, All-map, length, get_elem?, get_or, set, take, drop,
  replicate, length-append, length-set, get_or-set_self, get_elem?-set_self, get_elem?-set_ne,
  get_or-set_ne, ℤ, pos, negsuc, sub_ℕ, sub_ℕ-eq_zero, ltb, leb, ◌==◌, ==_iff, Bool-cases,
  Option-cases, if◌then◌else◌, Outcome, ok, panic, fault, no_fuel, ◌>>=◌,
}

pub record Cpu : Type 0 where
  pub noff : ℕ
  pub intena : Bool
  -- whether interrupts are enabled: intr_get()
  pub intr : Bool

pub record Spinlock : Type 0 where
  pub locked : Bool
  pub cpu : Option ℕ

-- The spin lock as initlock leaves it.
abbrev pub initlock : Spinlock
initlock = record { locked = false; cpu = none }

abbrev is_cpu : Option ℕ → ℕ → Bool
is_cpu none me = false
is_cpu (some c) me = c == me

pub holding : ℕ → Spinlock → Bool
holding me lk = lk.locked && is_cpu lk.cpu me

pub push_off : Cpu → Cpu
push_off c = record c {
  noff = c.noff + 1;
  intena = if c.noff == 0 then c.intr else c.intena;
  intr = false;
}

pub pop_off : Cpu → Outcome Cpu
pop_off c =
    if c.intr
    then panic
    else if ltb c.noff 1
    then panic
    else ok (record c { noff = c.noff - 1; intr = c.noff - 1 == 0 && c.intena })

-- acquire up to the first swap of lk->locked: none where it goes on spinning.
pub acquire : ℕ → Cpu → Spinlock → Outcome (Option Spinlock × Cpu)
unfolding push_off holding
acquire me c lk =
    let c' = push_off c in
    if holding me lk
    then panic
    else if lk.locked
    then ok (none, c')
    else ok (some (record { locked = true; cpu = some me }), c')

pub release : ℕ → Cpu → Spinlock → Outcome (Spinlock × Cpu)
unfolding pop_off holding
release me c lk =
    if not (holding me lk)
    then panic
    else pop_off c >>= λ c'. ok (record { locked = false; cpu = none }, c')
