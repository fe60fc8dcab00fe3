-- ===== src/Proc/Sched.antt =====
-- The scheduler of kernel/proc.c: fcfs, round_robin and one round of scheduler. What a process
-- does from the swtch to it until the swtch back is the parameter `swtch`, which takes the index
-- of the process and the table with the process RUNNING.
pub mod Pick
pub mod Pass
use os_spring.Prelude.{
  ℕ, zero, suc, ◌+◌, ◌-◌, ◌*◌, ◌/◌, ◌%◌, ◌^◌, ◌≤◌, ◌<◌, ◌≡◌, ◌≢◌, ◌⊎◌, ◌↔◌, inl, inr, refl, sym,
  subst, ap, ◌∙◌, fun_ext, List, [], ◌∷◌, ◌++◌, map, Bool, true, false, not, ◌&&◌, ◌||◌, Option,
  none, some, arith, All, All-map, length, get_elem?, get_or, set, take, drop, replicate,
  length-append, length-set, get_or-set_self, get_or-set_ne, ℤ, pos, negsuc, sub_ℕ, sub_ℕ-eq_zero,
  ltb, leb, ◌==◌, ==_iff, Bool-cases, Option-cases, if◌then◌else◌, Outcome, ok, panic, fault,
  no_fuel, ◌>>=◌,
}
use os_spring.Proc.{Proc, Table, SchedType, rr, fcfs, ProcState, running, runnable, state_eq, is_rr}

-- What a CPU does: it runs the process of an index, or waits for an interrupt (wfi).
pub data Event : Type 0 where
  runs : ℕ → Event
  waits : Event

abbrev pub is_candidate : Proc → Bool
is_candidate p = state_eq p.state runnable && not (is_rr p.sched)

-- The value of an int, from its 32-bit pattern, moved up by 2 ^ 31: the order of these is that of `<`
-- on ints.
abbrev pub int_key : ℕ → ℕ
int_key n = (n + 2 ^ 31) % 2 ^ 32

-- What fcfs makes of one process: `min` is minP with its starting tick, an int.
pub consider : ℕ → Proc → Option (ℕ × ℕ) → Option (ℕ × ℕ)
consider i p none = if is_candidate p then some (i, p.starting_tick) else none
consider i p (some (j, t)) =
    if is_candidate p && ltb (int_key p.starting_tick) (int_key t)
    then some (i, p.starting_tick)
    else some (j, t)

-- The loop of fcfs over the rest of the table, which starts at index `i`.
pub fcfs_from : ℕ → Option (ℕ × ℕ) → Table → Option (ℕ × ℕ)
fcfs_from i min [] = min
fcfs_from i min (p ∷ ps) = fcfs_from (i + 1) (consider i p min) ps

-- minP of fcfs
pub fcfs_pick : Table → Option ℕ
fcfs_pick t = elim (fcfs_from 0 none t) [ none ↦ none | some (i, _) ↦ some i ]

-- p->state = RUNNING
pub set_running : ℕ → Table → Table
set_running i [] = []
set_running zero (p ∷ ps) = record p { state = running } ∷ ps
set_running (suc i) (p ∷ ps) = p ∷ set_running i ps

module _ (swtch : ℕ → Table → Table) where
  -- The answer is `found`.
  pub fcfs_round : Table → Bool × List Event × Table
  fcfs_round t = elim (fcfs_pick t) [
    | none ↦ (false, [], t)
    | some i ↦ (true, runs i ∷ [], swtch i (set_running i t))
  ]

  -- for (p = proc; p < &proc[num]; p++): the first argument is the rounds left.
  pub round_robin_from : ℕ → ℕ → Bool → Table → List Event × Table
  round_robin_from zero i found t = ([], t)
  round_robin_from (suc k) i found t = elim (get_elem? t i) [
    | none ↦ ([], t)
    | some p ↦
        if state_eq p.state runnable && is_rr p.sched
        then (let (es, t') = round_robin_from k (i + 1) true (swtch i (set_running i t)) in
            (runs i ∷ es, t'))
        else (let (es, t') = round_robin_from k (i + 1) found t in
            ((if found then es else waits ∷ es), t'))
  ]

  pub round_robin : ℕ → Table → List Event × Table
  round_robin num t = round_robin_from num 0 false t

  -- One round of the loop of scheduler, over NPROC entries.
  pub scheduler_round : ℕ → Table → List Event × Table
  scheduler_round nproc t =
      let (found, es, t') = fcfs_round t in
      if found then (es, t') else (let (es', t'') = round_robin nproc t' in (es ++ es', t''))
