-- ===== src/Proc/Account.antt =====
-- The accounting of kernel/proc.c: update_pinfo, procinfo, proctick and find_active_proc.
use os_spring.Prelude.{
  ℕ, ◌+◌, ◌%◌, ◌^◌, ◌<◌, ◌≡◌, inl, inr, refl, ap, ◌∙◌, [], ◌∷◌, Bool, true, false, ◌||◌, Option,
  none, some, arith, length, ◌==◌, Bool-cases,
}
use os_spring.Proc.{
  Proc, Table, ProcState, unused, sleeping, running, runnable, state_eq, age, update_pinfo,
  ProcInfo, procinfo, find_active_proc,
}
use os_spring.Proc.Sleep.{find_pid}

abbrev one_if : Bool → ℕ
one_if true = 1
one_if false = 0

-- What procinfo reports of a process, and what it will report after the next tick.
abbrev report : Proc → ProcInfo
report p = record {
  cpu_burst_time = p.running_time;
  waiting_time = p.sleeping_time;
  turnaround_time = (p.running_time + p.sleeping_time + p.ready_time) % 2 ^ 32;
}

abbrev InRange : Proc → Type 0
InRange p = p.running_time + p.sleeping_time + p.ready_time + 1 < 2 ^ 32

pid-age : (q : Proc) → (age q).pid ≡ q.pid
pid-age q = ground arith

report-age :
    (p : Proc)
    → InRange p
    → report (age p) ≡ record {
      cpu_burst_time = p.running_time + one_if (state_eq p.state running);
      waiting_time = p.sleeping_time + one_if (state_eq p.state sleeping);
      turnaround_time =
          p.running_time
          + p.sleeping_time
          + p.ready_time
          + one_if (
              state_eq p.state running || (state_eq p.state sleeping || state_eq p.state runnable));
    }
report-age p h = ground arith

-- A process found behind a head with another pid is found in the rest.
found_later :
    (pid : ℕ) (t : Table) (i : ℕ) (p q : Proc)
    → (q.pid == pid) ≡ false
    → find_pid pid (q ∷ t) ≡ some (i, p)
    → (j : ℕ) × (find_pid pid t ≡ some (j, p))
unfolding find_pid
found_later pid t i p q miss e = go (find_pid pid t) refl
  where
    go : (r : Option (ℕ × Proc)) → find_pid pid t ≡ r → (j : ℕ) × (find_pid pid t ≡ some (j, p))
    go none e' = absurd (ground (arith, e, e', miss))
    go (some (j, r)) e' = (j, ground (arith, e, e', miss))

procinfo_lem :
    (pid : ℕ) (t : Table) (i : ℕ) (p : Proc)
    → find_pid pid t ≡ some (i, p)
    → (procinfo pid t ≡ some (report p)) × (procinfo pid (update_pinfo t) ≡ some (report (age p)))
unfolding procinfo update_pinfo find_pid
procinfo_lem pid [] i p e = absurd (cc e)
procinfo_lem pid (q ∷ t) i p e = elim (Bool-cases (q.pid == pid)) [
  | inl hit ↦
      let same : q ≡ p = ground (arith, hit) in
      (
        rw hit (ap (λ x. some (report x)) same),
        rw (pid-age q, hit) (ap (λ x. some (report (age x))) same),
      )
  | inr miss ↦
      let rest = found_later pid t i p q miss e in
      let ih = procinfo_lem pid t rest.0 p rest.1 in (rw miss ih.0, rw (pid-age q, miss) ih.1)
]

-- After a tick procinfo reports, of the first process with the pid, one more tick of CPU time if it
-- was running, one more of waiting if it slept, and one more of turnaround if it was running, asleep
-- or runnable; while the counters do not overflow.
procinfo-update_pinfo :
    (pid : ℕ) (t : Table) (i : ℕ) (p : Proc)
    → find_pid pid t ≡ some (i, p)
    → InRange p
    → (procinfo pid t ≡ some (report p))
      × (procinfo pid (update_pinfo t)
          ≡ some (record {
            cpu_burst_time = p.running_time + one_if (state_eq p.state running);
            waiting_time = p.sleeping_time + one_if (state_eq p.state sleeping);
            turnaround_time =
                p.running_time
                + p.sleeping_time
                + p.ready_time
                + one_if (
                    state_eq p.state running
                    || (state_eq p.state sleeping || state_eq p.state runnable));
          }))
procinfo-update_pinfo pid t i p e h =
    let l = procinfo_lem pid t i p e in (l.0, l.1 ∙ ap some (report-age p h))

abbrev count_state : ProcState → Table → ℕ
count_state s [] = 0
count_state s (p ∷ t) = one_if (state_eq p.state s) + count_state s t

-- find_active_proc counts the entries that are not UNUSED.
find_active_proc_lem : (t : Table) → find_active_proc t + count_state unused t ≡ length t
unfolding find_active_proc
find_active_proc_lem [] = omega arith
find_active_proc_lem (p ∷ t) = ground (arith, find_active_proc_lem t)
