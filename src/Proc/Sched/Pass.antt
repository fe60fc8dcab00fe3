-- ===== src/Proc/Sched/Pass.antt =====
-- round_robin and scheduler of kernel/proc.c: who runs in a pass.
use native.Mathlib.Decide.{ℕ_discrete}
use os_spring.Prelude.{
  ℕ, zero, suc, ◌+◌, ◌≤◌, ◌<◌, ◌≡◌, ◌≢◌, ◌⊎◌, inl, inr, refl, ap, ◌∙◌, List, [], ◌∷◌, Bool, true,
  false, ◌&&◌, Option, none, some, arith, get_elem?, Bool-cases, if◌then◌else◌,
}
use os_spring.Proc.{Proc, Table, runnable, state_eq, is_rr}
use os_spring.Proc.Sched.{
  Event, runs, waits, fcfs_pick, set_running, fcfs_round, round_robin_from, round_robin,
  scheduler_round,
}
use os_spring.Proc.Sched.Pick.{CandidateAt, Picks, fcfs_pick-Picks}

abbrev pub Runs : ℕ → List Event → Type 0
Runs j [] = ⊥
Runs j (e ∷ es) = (e ≡ runs j) ⊎ Runs j es

-- The process at index `j` is runnable under the round-robin policy.
abbrev ReadyAt : ℕ → Table → Type 0
ReadyAt j t =
    (p : Proc) × (get_elem? t j ≡ some p) × ((state_eq p.state runnable && is_rr p.sched) ≡ true)

set_running_ne : (i j : ℕ) (t : Table) → i ≢ j → get_elem? (set_running i t) j ≡ get_elem? t j
unfolding set_running
set_running_ne i j [] h = refl
set_running_ne zero zero (p ∷ ps) h = absurd (h refl)
set_running_ne zero (suc j) (p ∷ ps) h = refl
set_running_ne (suc i) zero (p ∷ ps) h = refl
set_running_ne (suc i) (suc j) (p ∷ ps) h = set_running_ne i j ps (λ e. h (ap suc e))

-- There is an entry below every entry.
entry_below :
    (t : Table) (i j : ℕ) (p : Proc)
    → i ≤ j
    → get_elem? t j ≡ some p
    → (q : Proc) × (get_elem? t i ≡ some q)
entry_below [] i j p h e = cc e
entry_below (x ∷ t) zero j p h e = (x, refl)
entry_below (x ∷ t) (suc i) zero p h e = absurd (omega arith)
entry_below (x ∷ t) (suc i) (suc j) p h e = entry_below t i j p (omega arith) e

Runs-waits :
    (found : Bool) (j : ℕ) (es : List Event) → Runs j es → Runs j (if found then es else waits ∷ es)
Runs-waits true j es h = h
Runs-waits false j es h = inr h

module _ (swtch : ℕ → Table → Table)
    (stays : (i j : ℕ) (t : Table) → i ≢ j → ReadyAt j t → ReadyAt j (swtch i t)) where
  stays_ready : (i j : ℕ) (t : Table) → i ≢ j → ReadyAt j t → ReadyAt j (swtch i (set_running i t))
  stays_ready i j t h r = stays i j (set_running i t) h (r.0, set_running_ne i j t h ∙ r.1, r.2)

  round_robin_from-Runs :
      (k i j : ℕ) (found : Bool) (t : Table)
      → i ≤ j
      → j < i + k
      → ReadyAt j t
      → Runs j (round_robin_from swtch k i found t).0
  unfolding round_robin_from
  round_robin_from-Runs zero i j found t h h' r = absurd (omega arith)
  round_robin_from-Runs (suc k) i j found t h h' r = elim (ℕ_discrete i j) [
    | yes e ↦
        let here : get_elem? t i ≡ some r.0 = ap (get_elem? t) e ∙ r.1 in
        rw (here, round_robin_from, r.2) (inl (ap runs e))
    | no ne ↦
        let (q, here) = entry_below t i j r.0 h r.1 in
        elim (Bool-cases (state_eq q.state runnable && is_rr q.sched)) [
          | inl turn ↦
              rw (here, round_robin_from, turn)
                (inr (
                  round_robin_from-Runs k (i + 1) j true (swtch i (set_running i t)) (omega arith)
                    (omega arith) (stays_ready i j t ne r)))
          | inr skip ↦
              rw (here, round_robin_from, skip)
                (Runs-waits found j (round_robin_from swtch k (i + 1) found t).0
                  (round_robin_from-Runs k (i + 1) j found t (omega arith) (omega arith) r))
        ]
  ]

  -- If no process is made to leave the ready state by another one's turn, a pass of round_robin
  -- runs every process that is runnable under the round-robin policy when the pass begins.
  pub round_robin-Runs :
      (num j : ℕ) (t : Table) → j < num → ReadyAt j t → Runs j (round_robin swtch num t).0
  unfolding round_robin
  round_robin-Runs num j t h r = round_robin_from-Runs num 0 j false t (omega arith) (omega arith) r

-- While a process is runnable under the first-come policy, a round of scheduler runs one such
-- process, the one that fcfs picks, and nothing else: no round-robin process gets a turn in it.
scheduler_round-fcfs :
    (swtch : ℕ → Table → Table) (nproc j u : ℕ) (t : Table)
    → CandidateAt t j u
    → (b : ℕ) × Picks t (some b)
      × (scheduler_round swtch nproc t ≡ (runs b ∷ [], swtch b (set_running b t)))
unfolding scheduler_round fcfs_round
scheduler_round-fcfs swtch nproc j u t c = go (fcfs_pick t) refl (fcfs_pick-Picks t)
  where
    go :
        (r : Option ℕ)
        → fcfs_pick t ≡ r
        → Picks t r
        → (b : ℕ) × Picks t (some b)
          × (scheduler_round swtch nproc t ≡ (runs b ∷ [], swtch b (set_running b t)))
    go none e best = absurd (best j u c)
    go (some b) e best = (b, best, rw (e, fcfs_round, scheduler_round))

-- When no process is runnable under the first-come policy, a round of scheduler is a pass of
-- round_robin over the table as it stands.
pub scheduler_round-round_robin :
    (swtch : ℕ → Table → Table) (nproc : ℕ) (t : Table)
    → ((j u : ℕ) → ¬ CandidateAt t j u)
    → scheduler_round swtch nproc t ≡ round_robin swtch nproc t
unfolding scheduler_round fcfs_round
scheduler_round-round_robin swtch nproc t h = go (fcfs_pick t) refl (fcfs_pick-Picks t)
  where
    go :
        (r : Option ℕ)
        → fcfs_pick t ≡ r
        → Picks t r
        → scheduler_round swtch nproc t ≡ round_robin swtch nproc t
    go none e best = rw (e, fcfs_round, scheduler_round)
    go (some b) e best = absurd (h b best.0 best.1)
