-- ===== src/Proc/Tests.antt =====
-- Runs of kernel/proc.c on a table of four entries.
use os_spring.Prelude.{ℕ, zero, suc, ◌≡◌, refl, [], ◌∷◌, true, false, none, some, arith, ok}
use os_spring.Proc.{
  Proc, Table, SchedType, rr, fcfs, Chan, nowhere, at_object, ProcState, unused, sleeping, runnable,
}
use os_spring.Proc.{running}
use os_spring.Proc.Yield.{Running, yield, yield_lem}
use os_spring.Spinlock.{initlock, push_off}
use os_spring.Spinlock.Exclusion.{taken_by}
use os_spring.Proc.Sched.{fcfs_pick, round_robin, scheduler_round}
use os_spring.Proc.Sched.Pick.{CandidateAt, Picks, fcfs_pick-Picks}
use os_spring.Proc.Sched.Pass.{Runs, round_robin-Runs, scheduler_round-round_robin}

abbrev a_proc : ProcState → Chan → ℕ → ℕ → SchedType → Proc
a_proc state chan pid tick sched = record {
  state = state;
  chan = chan;
  killed = false;
  xstate = 0;
  pid = pid;
  starting_tick = tick;
  termination_time = 0;
  running_time = 3;
  ready_time = 4;
  sleeping_time = 5;
  parent = none;
  sz = 0;
  pagetable = 0;
  trapframe = 0;
  ofile = [];
  cwd = 0;
  name = [];
  sched = sched;
}

abbrev sleeper : Proc
sleeper = a_proc sleeping (at_object 9) 1 0 rr

abbrev ready : Proc
ready = a_proc runnable nowhere 2 7 rr

abbrev first_come : Proc
first_come = a_proc runnable nowhere 3 5 fcfs

abbrev table : Table
table = sleeper ∷ ready ∷ first_come ∷ a_proc unused nowhere 0 0 rr ∷ []

-- No first-come process is runnable.
abbrev small_table : Table
small_table = sleeper ∷ ready ∷ []

abbrev same : ℕ → Table → Table
same i t = t

fcfs_pick-Picks_example : Picks table (fcfs_pick table)
fcfs_pick-Picks_example = fcfs_pick-Picks table

round_robin-Runs_example : Runs 1 (round_robin same 4 table).0
round_robin-Runs_example =
    round_robin-Runs same (λ i j t ne h. h) 4 1 table (omega arith) (ready, refl, refl)

no_first_come : (j u : ℕ) → ¬ CandidateAt small_table j u
no_first_come zero u (p, at, is, _) = ground (arith, at, is)
no_first_come (suc zero) u (p, at, is, _) = ground (arith, at, is)
no_first_come (suc (suc j)) u (p, at, is, _) = cc at

scheduler_round-round_robin_example :
    scheduler_round same 4 small_table ≡ round_robin same 4 small_table
scheduler_round-round_robin_example = scheduler_round-round_robin same 4 small_table no_first_come

-- A process that runs alone, and a switch after which another processor runs it.
abbrev alone : Table
alone = a_proc running nowhere 3 0 rr ∷ []

abbrev back_on_second : Running → Running
back_on_second x = record {
  cpu = 1;
  state = record { noff = 1; intena = false; intr = false };
  lock = taken_by 1;
  table = x.table;
}

abbrev before : Running
before = record {
  cpu = 0;
  state = record { noff = 0; intena = false; intr = true };
  lock = initlock;
  table = alone;
}

abbrev at_switch : Running
at_switch = record {
  cpu = 0;
  state = push_off before.state;
  lock = taken_by 0;
  table = a_proc runnable nowhere 3 0 rr ∷ [];
}

yield_lem_example :
    (z : Running) × (yield back_on_second 0 before ≡ ok (some z))
    × (z.lock ≡ initlock)
    × (z.state.noff ≡ 0)
    × (z.state.intr ≡ true)
    × (z.table ≡ a_proc runnable nowhere 3 0 rr ∷ [])
yield_lem_example =
    yield_lem back_on_second 0 before (back_on_second at_switch) (a_proc running nowhere 3 0 rr)
      refl refl refl refl refl refl refl
