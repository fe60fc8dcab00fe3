-- ===== src/Proc/Life/Pids.antt =====
-- A kill of pid 0 in kernel/proc.c, and the next process that allocproc makes.
use os_spring.Prelude.{
  ℕ, ◌≡◌, inl, inr, [], ◌∷◌, true, some, arith, All, ◌==◌, Bool-cases, Option-cases,
}
use os_spring.Proc.{Proc, Table, unused, state_eq, hit, kill}
use os_spring.Proc.Life.{Services, Kernel, find_unused, allocproc}

-- The pid of an entry is 0 exactly when it is UNUSED, as freeproc and allocproc leave it.
abbrev pub PidsMatch : Table → Type 0
PidsMatch t = All (λ p. state_eq p.state unused ≡ (p.pid == 0)) t

hit-unused : (p : Proc) → state_eq p.state unused ≡ true → hit p ≡ record p { killed = true }
hit-unused p h = ground (arith, h)

kill_zero-find_unused :
    (t : Table) (i : ℕ) (q : Proc)
    → PidsMatch t
    → find_unused t ≡ some (i, q)
    → find_unused (kill 0 t).1 ≡ some (i, record q { killed = true })
unfolding kill find_unused
kill_zero-find_unused [] i q v e = cc e
kill_zero-find_unused (p ∷ ps) i q v e = elim (Bool-cases (state_eq p.state unused)) [
  | inl free ↦ ground (arith, free, v.0, hit-unused p free, e)
  | inr busy ↦ elim (Option-cases (find_unused ps)) [
    | inl gone ↦ ground (arith, busy, gone, e)
    | inr (r, found) ↦
        ground (arith, busy, found, v.0, e, kill_zero-find_unused ps r.0 r.1 v.1 found)
  ]
]

-- kill(0) marks the first UNUSED entry killed, and allocproc does not clear the mark: the next
-- process starts its life killed.
kill_zero-allocproc :
    (S : Services) (k : Kernel S) (i j : ℕ) (q np : Proc) (k' : Kernel S)
    → PidsMatch k.table
    → find_unused k.table ≡ some (i, q)
    → allocproc S (record k { table = (kill 0 k.table).1 }) ≡ (some (j, np), k')
    → np.killed ≡ true
unfolding allocproc
kill_zero-allocproc S k i j q np k' v e a = ground (arith, kill_zero-find_unused k.table i q v e, a)
