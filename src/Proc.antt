-- ===== src/Proc.antt =====
-- kernel/proc.c and kernel/proc.h: the process table. A `struct proc *` is an index of the table;
-- each function is one step, under the locks that it takes. What a process keeps outside the
-- table (its pages, files and directory) is named by numbers, 0 for a null pointer.
pub mod Sched
pub mod Sleep
pub mod Account
pub mod Yield
pub mod Life
mod Tests
use os_spring.Prelude.{
  ℕ, zero, suc, ◌+◌, ◌-◌, ◌*◌, ◌/◌, ◌%◌, ◌^◌, ◌≤◌, ◌<◌, ◌≡◌, ◌≢◌, ◌⊎◌, ◌↔◌, inl, inr, refl, sym,
  subst, ap, ◌∙◌, fun_ext, List, [], ◌∷◌, ◌++◌, map, Bool, true, false, not, ◌&&◌, ◌||◌, Option,
  none, some, arith, All, All-map, length, get_elem?, get_or, set, take, drop, replicate,
  length-append, length-set, get_or-set_self, get_or-set_ne, ℤ, pos, negsuc, ltb, leb, ◌==◌, ==_iff,
  Bool-cases, Option-cases, if◌then◌else◌, Outcome, ok, panic, fault, no_fuel, ◌>>=◌,
}
use os_spring.Cstring.{Mem, strncmp}

pub data ProcState : Type 0 where
  unused used sleeping runnable running zombie : ProcState

pub data SchedType : Type 0 where
  rr fcfs : SchedType

-- A wait channel: the address of a process, or of some other object, or null.
pub data Chan : Type 0 where
  nowhere : Chan
  at_proc : ℕ → Chan
  at_object : ℕ → Chan

abbrev pub state_eq : ProcState → ProcState → Bool
state_eq unused unused = true
state_eq used used = true
state_eq sleeping sleeping = true
state_eq runnable runnable = true
state_eq running running = true
state_eq zombie zombie = true
state_eq _ _ = false

abbrev pub is_rr : SchedType → Bool
is_rr rr = true
is_rr fcfs = false

abbrev pub chan_eq : Chan → Chan → Bool
chan_eq nowhere nowhere = true
chan_eq (at_proc i) (at_proc j) = i == j
chan_eq (at_object i) (at_object j) = i == j
chan_eq _ _ = false

-- The fields of `struct proc` that these functions use; `parent` is an index.
pub record Proc : Type 0 where
  pub state : ProcState
  pub chan : Chan
  pub killed : Bool
  pub xstate : ℕ
  pub pid : ℕ
  -- ints: their 32-bit patterns
  pub starting_tick : ℕ
  pub termination_time : ℕ
  pub running_time : ℕ
  pub ready_time : ℕ
  pub sleeping_time : ℕ
  pub parent : Option ℕ
  pub sz : ℕ
  pub pagetable : ℕ
  pub trapframe : ℕ
  pub ofile : List ℕ
  pub cwd : ℕ
  pub name : List ℕ
  pub sched : SchedType

abbrev pub Table : Type 0
Table = List Proc

-- int counters of ticks
abbrev pub tick : ℕ → ℕ
tick n = (n + 1) % 2 ^ 32

abbrev pub parent_is : Option ℕ → ℕ → Bool
parent_is none i = false
parent_is (some j) i = j == i

abbrev pub is_me : Option ℕ → ℕ → Bool
is_me none i = false
is_me (some j) i = j == i

-- `me` is myproc(); `i` the index of the head of the rest of the table.
pub wakeup_from : ℕ → Option ℕ → Chan → Table → Table
wakeup_from i me c [] = []
wakeup_from i me c (p ∷ ps) =
    (if not (is_me me i) && (state_eq p.state sleeping && chan_eq p.chan c)
      then record p { state = runnable }
      else p)
    ∷ wakeup_from (i + 1) me c ps

pub wakeup : Option ℕ → Chan → Table → Table
wakeup me c t = wakeup_from 0 me c t

-- What kill does to its victim.
abbrev pub hit : Proc → Proc
hit p =
    if state_eq p.state sleeping
    then record p { killed = true; state = runnable }
    else record p { killed = true }

-- The answer is the code's `return 0` (true) or `return -1` (false).
pub kill : ℕ → Table → Bool × Table
kill pid [] = (false, [])
kill pid (p ∷ ps) =
    let (done, ps') = kill pid ps in if p.pid == pid then (true, hit p ∷ ps) else (done, p ∷ ps')

setkilled : ℕ → Table → Table
setkilled i [] = []
setkilled zero (p ∷ ps) = record p { killed = true } ∷ ps
setkilled (suc i) (p ∷ ps) = p ∷ setkilled i ps

pub find_active_proc : Table → ℕ
find_active_proc [] = 0
find_active_proc (p ∷ ps) =
    if not (state_eq p.state unused) then suc (find_active_proc ps) else find_active_proc ps

-- `ticks - p->startingTick`, of uint and int, returned as an int: 32 bits.
proctick : ℕ → ℕ → Table → Option ℕ
proctick ticks pid [] = none
proctick ticks pid (p ∷ ps) =
    let rest = proctick ticks pid ps in
    if p.pid == pid then some ((ticks + 2 ^ 32 - p.starting_tick) % 2 ^ 32) else rest

-- `struct procinfo` (kernel/procinfo.h)
pub record ProcInfo : Type 0 where
  pub cpu_burst_time : ℕ
  pub waiting_time : ℕ
  pub turnaround_time : ℕ

-- What procinfo copies out; `none` where it finds no process and returns -1.
pub procinfo : ℕ → Table → Option ProcInfo
procinfo pid [] = none
procinfo pid (p ∷ ps) =
    let rest = procinfo pid ps in
    if p.pid == pid
    then some (record {
      cpu_burst_time = p.running_time;
      waiting_time = p.sleeping_time;
      turnaround_time = (p.running_time + p.sleeping_time + p.ready_time) % 2 ^ 32;
    })
    else rest

abbrev is_zero : ℤ → Bool
is_zero (pos n) = n == 0
is_zero (negsuc n) = false

-- `lower` and `upper` are the addresses of the literals "fcfs" and "FCFS".
find_scheduler_type : ℕ → ℕ → ℕ → Mem → SchedType
find_scheduler_type lower upper name mem =
    if is_zero (strncmp name lower 4 mem) || is_zero (strncmp name upper 4 mem) then fcfs else rr

-- changeScheduler; the answer is the code's `return 1` (true) or `return 0` (false).
change_scheduler : ℕ → ℕ → ℕ → ℕ → Mem → Table → Bool × Table
change_scheduler lower upper pid name mem [] = (false, [])
change_scheduler lower upper pid name mem (p ∷ ps) =
    let (done, ps') = change_scheduler lower upper pid name mem ps in
    if p.pid == pid
    then (true, record p { sched = find_scheduler_type lower upper name mem } ∷ ps)
    else (done, p ∷ ps')

abbrev pub age : Proc → Proc
age p = elim p.state [
  | sleeping ↦ record p { sleeping_time = tick p.sleeping_time }
  | running ↦ record p { running_time = tick p.running_time }
  | runnable ↦ record p { ready_time = tick p.ready_time }
  | _ ↦ p
]

pub update_pinfo : Table → Table
update_pinfo t = map age t
