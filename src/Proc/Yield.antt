-- ===== src/Proc/Yield.antt =====
-- kernel/proc.c: sched and yield, with the locks of kernel/spinlock.c, and sysinfo. `Switch` is what swtch does:
-- from a processor, its state, the process's lock and the table to those with which the thread goes on.
use os_spring.Prelude.{
  ℕ, ◌+◌, ◌-◌, ◌/◌, ◌%◌, ◌^◌, ◌≡◌, refl, ap, ◌∙◌, true, false, not, Option, none, some, get_elem?,
  set, get_elem?-set_self, ◌==◌, if◌then◌else◌, Outcome, ok, panic, fault, ◌>>=◌,
}
use os_spring.Kalloc.{Kmem, calculate_free_ram, kernbase, phystop}
use os_spring.Proc.{Proc, Table, runnable, running, state_eq, find_active_proc}
use os_spring.Spinlock.{Cpu, Spinlock, initlock, holding, push_off, acquire, release}
use os_spring.Spinlock.Exclusion.{
  taken_by, acquire_free, first_push, release_last, holding-taken_by,
}

-- nextpid is the state; the answer is the pid.
allocpid : ℕ → ℕ × ℕ
allocpid nextpid = (nextpid, (nextpid + 1) % 2 ^ 32)

-- struct sysinfo
record Sysinfo : Type 0 where
  pub uptime : ℕ
  pub totalram : ℕ
  pub freeram : ℕ
  pub procs : ℕ

-- What sysinfo copies to the user.
sysinfo : ℕ → Table → Kmem → Outcome Sysinfo
sysinfo ticks t k = calculate_free_ram k >>= λ free. ok (record {
  uptime = ticks / 10;
  totalram = phystop - kernbase;
  freeram = free;
  procs = find_active_proc t;
})

-- A processor, its state, the lock of the process and the table.
pub record Running : Type 0 where
  pub cpu : ℕ
  pub state : Cpu
  pub lock : Spinlock
  pub table : Table

module _ (swtch : Running → Running) (i : ℕ) where
  -- sched of the process at index `i`
  sched : Running → Outcome Running
  sched x = elim (get_elem? x.table i) [
    | none ↦ fault
    | some p ↦
        let y = swtch x in
        if not (holding x.cpu x.lock)
        then panic
        else if not (x.state.noff == 1)
        then panic
        else if state_eq p.state running
        then panic
        else if x.state.intr
        then panic
        else ok (record y { state = record (y.state) { intena = x.state.intena } })
  ]

  -- The end of yield.
  abbrev unlock : Running → Outcome (Option Running)
  unlock y =
      release y.cpu y.state y.lock >>= λ (lk, c). ok (some (record y { state = c; lock = lk }))

  -- yield with the lock of the process taken, for its entry
  switch_out : Running → Spinlock → Cpu → Option Proc → Outcome (Option Running)
  unfolding sched
  switch_out x lk c none = fault
  switch_out x lk c (some p) =
      sched
        (record x { state = c; lock = lk; table = set x.table i (record p { state = runnable }) })
      >>= unlock

  -- yield; none where acquire spins.
  pub yield : Running → Outcome (Option Running)
  unfolding switch_out
  yield x = acquire x.cpu x.state x.lock >>= λ (got, c). elim got [
    | none ↦ ok none
    | some lk ↦ switch_out x lk c (get_elem? x.table i)
  ]

  sched_lem :
      (x y : Running) (p : Proc)
      → get_elem? x.table i ≡ some p
      → holding x.cpu x.lock ≡ true
      → x.state.noff ≡ 1
      → state_eq p.state running ≡ false
      → x.state.intr ≡ false
      → swtch x ≡ y
      → sched x ≡ ok (record y { state = record (y.state) { intena = x.state.intena } })
  unfolding sched
  sched_lem x y p at held one ready off back = simp (sched, at, held, one, ready, off, back) refl

  -- yield of a process whose lock is free, outside every push_off, where swtch comes back on a processor
  -- that holds the lock of the process with interrupts off inside one push_off: it does not panic or
  -- spin. The process is RUNNABLE at the switch; at the end its lock is free, and interrupts are enabled
  -- if they were before.
  pub yield_lem :
      (x y : Running) (p : Proc)
      → get_elem? x.table i ≡ some p
      → x.lock.locked ≡ false
      → x.state.noff ≡ 0
      → swtch (record x {
        state = push_off x.state;
        lock = taken_by x.cpu;
        table = set x.table i (record p { state = runnable });
      })
        ≡ y
      → y.lock ≡ taken_by y.cpu
      → y.state.noff ≡ 1
      → y.state.intr ≡ false
      → (z : Running) × (yield x ≡ ok (some z))
        × (z.lock ≡ initlock)
        × (z.state.noff ≡ 0)
        × (z.state.intr ≡ x.state.intr)
        × (z.table ≡ y.table)
  unfolding yield switch_out
  yield_lem x y p at free out back held one off =
      let p' = record p { state = runnable } in
      let at' = get_elem?-set_self x.table i p p' at in
      let (n, quiet, saved) = first_push x.state out in
      let x' = record x {
        state = push_off x.state;
        lock = taken_by x.cpu;
        table = set x.table i p';
      } in
      let d = record (y.state) { intena = (push_off x.state).intena } in
      let switched : sched x' ≡ ok (record y { state = d }) =
        sched_lem x' y p' at' (holding-taken_by x.cpu) n refl quiet back in
      let unlocked : release y.cpu d y.lock
          ≡ ok (initlock, record d { noff = 0; intr = d.intena }) =
        ap (release y.cpu d) held ∙ release_last y.cpu d one off in
      (
        record y { state = record d { noff = 0; intr = d.intena }; lock = initlock },
        rw (yield, acquire_free x.cpu x.state x.lock free)
            (ap (switch_out x (taken_by x.cpu) (push_off x.state)) at
              ∙ ap (λ r. r >>= unlock) switched
              ∙ ap
                  (λ (r : Outcome (Spinlock × Cpu)).
                    r >>= λ (lk, c). ok (some (record y { state = c; lock = lk })))
                  unlocked),
        refl,
        refl,
        saved,
        refl,
      )
