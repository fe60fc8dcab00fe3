-- ===== src/Proc/Life/Tests.antt =====
-- Runs of exit, wait and allocproc of kernel/proc.c, with callees that hand out addresses.
use os_spring.Prelude.{
  ℕ, ◌+◌, ◌≡◌, ◌≢◌, refl, [], ◌∷◌, true, false, Option, none, some, arith, get_elem?, ok,
}
use os_spring.Proc.{
  Proc, rr, Chan, nowhere, at_proc, at_object, ProcState, unused, used, sleeping, running, runnable,
  zombie,
}
use os_spring.Proc.Life.{Services, Kernel, exit}
use os_spring.Proc.Life.Exit.{adopt, Becomes, exit-Becomes}
use os_spring.Proc.Life.Pids.{PidsMatch}

-- The state is the next free address; closing a file wakes the channel of that file, and the end of a
-- transaction that of the log, 1.
abbrev addresses : Services
addresses = record {
  State = ℕ;
  kalloc = λ s. (s, s + 1);
  kfree = λ a s. s;
  proc_pagetable = λ tf s. (s, s + 1);
  proc_freepagetable = λ pt sz s. s;
  uvmcopy = λ old new sz s. (true, s);
  copy_trapframe = λ a b s. s;
  filedup = λ f s. s;
  idup = λ i s. s;
  fileclose = λ f s. (at_object f ∷ [], s);
  iput = λ i s. (at_object 1 ∷ [], s);
}

abbrev a_proc : ProcState → Chan → ℕ → Option ℕ → Proc
a_proc state chan pid parent = record {
  state = state;
  chan = chan;
  killed = false;
  xstate = 0;
  pid = pid;
  starting_tick = 0;
  termination_time = 0;
  running_time = 0;
  ready_time = 0;
  sleeping_time = 0;
  parent = parent;
  sz = 0;
  pagetable = 0;
  trapframe = 0;
  ofile = 70 ∷ 0 ∷ [];
  cwd = 8;
  name = [];
  sched = rr;
}

abbrev initproc : Proc
initproc = a_proc runnable nowhere 1 none

abbrev shell : Proc
shell = a_proc sleeping (at_proc 1) 2 (some 0)

abbrev program : Proc
program = a_proc running nowhere 3 (some 1)

abbrev child : Proc
child = a_proc zombie nowhere 4 (some 2)

-- init, the shell in wait, its child `program` with a child of its own, and a free entry.
abbrev kernel : Kernel addresses
kernel = record {
  table = initproc ∷ shell ∷ program ∷ child ∷ a_proc unused nowhere 0 none ∷ [];
  nextpid = 5;
  ticks = 100;
  rest = 1000;
}

exit-Becomes_example :
    (k' : Kernel addresses) × (exit addresses 0 2 program 9 kernel ≡ ok k')
    × ((q : Proc) × (get_elem? k'.table 2 ≡ some q)
        × (q.state ≡ zombie)
        × (q.xstate ≡ 9)
        × (q.pid ≡ program.pid)
        × (q.parent ≡ (adopt 2 0 program).parent))
    × ((j : ℕ) (c : Proc)
        → j ≢ 2
        → get_elem? kernel.table j ≡ some c
        → Becomes k'.table j (adopt 2 0 c))
exit-Becomes_example = exit-Becomes addresses 0 2 program 9 kernel (omega arith) refl

program_exits : (k' : Kernel addresses) × (exit addresses 0 2 program 9 kernel ≡ ok k')
program_exits =
    let (k', e, _, _) = exit-Becomes addresses 0 2 program 9 kernel (omega arith) refl in (k', e)

kernel-PidsMatch : PidsMatch kernel.table
kernel-PidsMatch = (refl, (refl, (refl, (refl, (refl, tt)))))

abbrev born : Proc
born = record (a_proc used nowhere 5 none) { killed = true; trapframe = 1000; pagetable = 1001 }

abbrev with_born : Kernel addresses
with_born = record {
  table = initproc ∷ shell ∷ program ∷ child ∷ born ∷ [];
  nextpid = 6;
  ticks = 100;
  rest = 1002;
}
