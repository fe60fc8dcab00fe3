-- ===== src/Sleeplock/Tests.antt =====
-- A run of kernel/sleeplock.c with one process that sleeps on the lock.
use os_spring.Prelude.{[], true, false, none}
use os_spring.Proc.{Proc, at_object, sleeping, rr}
use os_spring.Sleeplock.{Sleeplock}

abbrev sleeper : Proc
sleeper = record {
  state = sleeping;
  chan = at_object 900;
  killed = false;
  xstate = 0;
  pid = 4;
  starting_tick = 0;
  termination_time = 0;
  running_time = 0;
  ready_time = 0;
  sleeping_time = 0;
  parent = none;
  sz = 0;
  pagetable = 0;
  trapframe = 0;
  ofile = [];
  cwd = 0;
  name = [];
  sched = rr;
}

abbrev held : Sleeplock
held = record { locked = true; pid = 3 }
