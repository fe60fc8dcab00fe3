-- ===== src/Sleeplock.antt =====
-- kernel/sleeplock.c: sleep locks, over the process table of kernel/proc.c. The spin lock inside
-- makes each function one step; a process that finds the lock taken sleeps on its address.
pub mod Handover
mod Tests
use os_spring.Prelude.{
  ℕ, zero, suc, ◌+◌, ◌-◌, ◌*◌, ◌/◌, ◌%◌, ◌^◌, ◌≤◌, ◌<◌, ◌≡◌, ◌≢◌, ◌⊎◌, ◌↔◌, inl, inr, refl, sym,
  subst, ap, ◌∙◌, fun_ext, List, [], ◌∷◌, ◌++◌, map, Bool, true, false, not, ◌&&◌, ◌||◌, Option,
  none, some, some-injective, arith, All, All-map, length, get_elem?, get_or, set, take, drop,
  replicate, length-append, length-set, get_or-set_self, get_elem?-set_self, get_elem?-set_ne,
  get_or-set_ne, ℤ, pos, negsuc, sub_ℕ, sub_ℕ-eq_zero, ltb, leb, ◌==◌, ==_iff, Bool-cases,
  Option-cases, if◌then◌else◌, Outcome, ok, panic, fault, no_fuel, ◌>>=◌,
}
use os_spring.Proc.{Table, at_object, wakeup}

pub record Sleeplock : Type 0 where
  pub locked : Bool
  pub pid : ℕ

-- One turn of the loop of acquiresleep by the process `pid`; none where it sleeps.
pub acquiresleep : ℕ → Sleeplock → Option Sleeplock
acquiresleep pid lk = if lk.locked then none else some (record { locked = true; pid = pid })

-- releasesleep of the lock at address `a`, by the process of index `me`
pub releasesleep : ℕ → ℕ → Sleeplock → Table → Sleeplock × Table
releasesleep a me lk t = (record { locked = false; pid = 0 }, wakeup (some me) (at_object a) t)

pub holdingsleep : ℕ → Sleeplock → Bool
holdingsleep pid lk = lk.locked && lk.pid == pid
