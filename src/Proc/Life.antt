-- ===== src/Proc/Life.antt =====
-- The life of a process in kernel/proc.c: allocproc, freeproc, fork, reparent, exit and wait.
-- What these call in other files is the interface `Services` over a state of its own.
pub mod Exit
pub mod Pids
pub mod Wait
mod Tests
use os_spring.Prelude.{
  ℕ, zero, suc, ◌+◌, ◌-◌, ◌*◌, ◌/◌, ◌%◌, ◌^◌, ◌≤◌, ◌<◌, ◌≡◌, ◌≢◌, ◌⊎◌, ◌↔◌, inl, inr, refl, sym,
  subst, ap, ◌∙◌, fun_ext, List, [], ◌∷◌, ◌++◌, map, Bool, true, false, not, ◌&&◌, ◌||◌, Option,
  none, some, arith, All, All-map, length, get_elem?, get_or, set, take, drop, replicate,
  length-append, length-set, get_or-set_self, get_or-set_ne, ℤ, pos, negsuc, sub_ℕ, sub_ℕ-eq_zero,
  ltb, leb, ◌==◌, ==_iff, Bool-cases, Option-cases, if◌then◌else◌, Outcome, ok, panic, fault,
  no_fuel, ◌>>=◌,
}
use os_spring.Proc.{
  Proc, Table, SchedType, rr, Chan, nowhere, at_proc, ProcState, unused, used, sleeping, running,
  runnable, zombie, state_eq, parent_is, wakeup,
}

-- The callees outside kernel/proc.c. An address 0 is a null pointer.
pub record Services : Type 1 where
  pub State : Type 0
  -- kalloc and kfree (kernel/kalloc.c)
  pub kalloc : State → ℕ × State
  pub kfree : ℕ → State → State
  -- proc_pagetable of the trapframe, and proc_freepagetable
  pub proc_pagetable : ℕ → State → ℕ × State
  pub proc_freepagetable : ℕ → ℕ → State → State
  -- uvmcopy (kernel/vm.c): whether it succeeded
  pub uvmcopy : ℕ → ℕ → ℕ → State → Bool × State
  -- *(np->trapframe) = *(p->trapframe); np->trapframe->a0 = 0;
  pub copy_trapframe : ℕ → ℕ → State → State
  -- filedup, idup, fileclose with the channels that it wakes, and begin_op(); iput(ip); end_op() with
  -- those that they wake
  pub filedup : ℕ → State → State
  pub idup : ℕ → State → State
  pub fileclose : ℕ → State → List Chan × State
  pub iput : ℕ → State → List Chan × State

module _ (S : Services) where
  open S use {
    State, kalloc, kfree, proc_pagetable, proc_freepagetable, uvmcopy, copy_trapframe, filedup,
    idup, fileclose, iput,
  }

  pub record Kernel : Type 0 where
    pub table : Table
    pub nextpid : ℕ
    pub ticks : ℕ
    pub rest : State

-- The fields that freeproc clears. The accounting of ticks, the policy and the open files stay.
abbrev pub cleared : Proc → Proc
cleared p = record p {
  trapframe = 0;
  pagetable = 0;
  sz = 0;
  pid = 0;
  parent = none;
  name = [];
  chan = nowhere;
  killed = false;
  xstate = 0;
  state = unused;
}

-- The first UNUSED entry.
pub find_unused : Table → Option (ℕ × Proc)
find_unused [] = none
find_unused (p ∷ ps) =
    if state_eq p.state unused
    then some (0, p)
    else elim (find_unused ps) [ none ↦ none | some (i, q) ↦ some (suc i, q) ]

-- for (pp = proc; ...) if (pp->parent == p) { pp->parent = initproc; wakeup(initproc); }
-- at the indices from `i` on; the first argument is the rounds left.
pub reparent_from : ℕ → ℕ → ℕ → ℕ → Table → Table
reparent_from zero i me init t = t
reparent_from (suc k) i me init t =
    let adopted : Table = elim (get_elem? t i) [
      | none ↦ t
      | some pp ↦
          if parent_is pp.parent me
          then wakeup (some me) (at_proc init) (set t i (record pp { parent = some init }))
          else t
    ] in
    reparent_from k (i + 1) me init adopted

pub reparent : ℕ → ℕ → Table → Table
reparent me init t = reparent_from (length t) 0 me init t

abbrev pub wake_all : ℕ → List Chan → Table → Table
wake_all me [] t = t
wake_all me (c ∷ cs) t = wake_all me cs (wakeup (some me) c t)

-- wakeup(p->parent): a null parent is the channel of no process.
abbrev pub parent_chan : Option ℕ → Chan
parent_chan none = nowhere
parent_chan (some j) = at_proc j

-- The first child of `me` that is a ZOMBIE; and whether there is any child.
pub find_zombie : ℕ → Table → Option (ℕ × Proc)
find_zombie me [] = none
find_zombie me (p ∷ ps) =
    if parent_is p.parent me && state_eq p.state zombie
    then some (0, p)
    else elim (find_zombie me ps) [ none ↦ none | some (i, q) ↦ some (suc i, q) ]

havekids : ℕ → Table → Bool
havekids me [] = false
havekids me (p ∷ ps) = parent_is p.parent me || havekids me ps

-- A null entry of the parent leaves the child's as the last use of the slot left it.
abbrev child_files : List ℕ → List ℕ → List ℕ
child_files [] gs = gs
child_files (f ∷ fs) [] = []
child_files (f ∷ fs) (g ∷ gs) = (if f == 0 then g else f) ∷ child_files fs gs

-- What one turn of the loop of wait does: it reaps a child, it fails, or it goes to sleep.
pub data Waited : Type 0 where
  reaped : ℕ → Waited
  failed : Waited
  sleeps : Waited

module _ (S : Services) where
  open S use {
    State, kalloc, kfree, proc_pagetable, proc_freepagetable, uvmcopy, copy_trapframe, filedup,
    idup, fileclose, iput,
  }

  -- freeproc, on the entry `p` of index `i`
  pub freeproc : ℕ → Proc → Kernel S → Kernel S
  freeproc i p k =
      let r₁ = if p.trapframe == 0 then k.rest else kfree p.trapframe k.rest in
      let r₂ = if p.pagetable == 0 then r₁ else proc_freepagetable p.pagetable p.sz r₁ in
      record k { table = set k.table i (cleared p); rest = r₂ }

  -- The new entry's index and contents, or none.
  pub allocproc : Kernel S → Option (ℕ × Proc) × Kernel S
  unfolding freeproc
  allocproc k = elim (find_unused k.table) [
    | none ↦ (none, k)
    | some (i, q) ↦
        let p₁ = record q { pid = k.nextpid; state = used; sched = rr } in
        let k₁ = record k { nextpid = (k.nextpid + 1) % 2 ^ 32 } in
        let (tf, r₁) = kalloc k.rest in
        let p₂ = record p₁ { trapframe = tf } in
        let (pt, r₂) = proc_pagetable tf r₁ in
        let p₃ = record p₂ { pagetable = pt } in
        if tf == 0
        then (none, freeproc i p₂ (record k₁ { rest = r₁ }))
        else if pt == 0
        then (none, freeproc i p₃ (record k₁ { rest = r₂ }))
        else (some (i, p₃), record k₁ { table = set k.table i p₃; rest = r₂ })
  ]

  dup_files : List ℕ → State → State
  dup_files [] r = r
  dup_files (f ∷ fs) r = dup_files fs (if f == 0 then r else filedup f r)

  -- fork by the process `p` of index `me`; the answer is the child's pid, or none for -1.
  fork : ℕ → Proc → Kernel S → Option ℕ × Kernel S
  unfolding freeproc
  fork me p k =
      let (allocated, k₁) = allocproc k in
      elim allocated [
        | none ↦ (none, k₁)
        | some (i, np) ↦
            let (copied, r₁) = uvmcopy p.pagetable np.pagetable p.sz k₁.rest in
            let r₂ = idup p.cwd (dup_files p.ofile (copy_trapframe p.trapframe np.trapframe r₁)) in
            let child = record np {
              sz = p.sz;
              ofile = child_files p.ofile np.ofile;
              cwd = p.cwd;
              name = p.name;
              parent = some me;
              state = runnable;
              starting_tick = k₁.ticks % 2 ^ 32;
            } in
            if copied
            then (some np.pid, record k₁ { table = set k₁.table i child; rest = r₂ })
            else (none, freeproc i np (record k₁ { rest = r₁ }))
      ]

  pub close_files : List ℕ → State → List Chan × State
  close_files [] r = ([], r)
  close_files (f ∷ fs) r =
      let (cs, r') = if f == 0 then ([], r) else fileclose f r in
      let (cs', r'') = close_files fs r' in (cs ++ cs', r'')

  -- exit by the process `p` of index `me`, up to the call of sched
  pub exit : ℕ → ℕ → Proc → ℕ → Kernel S → Outcome (Kernel S)
  unfolding close_files
  exit init me p status k =
      let (woken, r₁) = close_files p.ofile k.rest in
      let (woken', r₂) = iput p.cwd r₁ in
      let t₁ = wake_all me woken' (wake_all me woken k.table) in
      let t₂ = wakeup (some me) (parent_chan p.parent) (reparent me init t₁) in
      let gone = λ (q : Proc). record q {
        ofile = replicate (length p.ofile) 0;
        cwd = 0;
        termination_time = k.ticks % 2 ^ 32;
        xstate = status;
        state = zombie;
      } in
      if me == init then panic else elim (get_elem? t₂ me) [
        | none ↦ fault
        | some q ↦ ok (record k { table = set t₂ me (gone q); rest = r₂ })
      ]

  -- One turn of the loop of wait by `p` of index `me`; `copyout` says whether the status could be
  -- copied out, and is true where `addr` is 0.
  pub wait_turn : ℕ → Proc → Bool → Kernel S → Waited × Kernel S
  unfolding freeproc
  wait_turn me p copyout k = elim (find_zombie me k.table) [
    | some (i, pp) ↦ if copyout then (reaped pp.pid, freeproc i pp k) else (failed, k)
    | none ↦ if not (havekids me k.table) || p.killed then (failed, k) else (
      sleeps,
      record k { table = set k.table me (record p { chan = at_proc me; state = sleeping }) },
    )
  ]
