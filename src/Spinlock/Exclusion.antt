-- ===== src/Spinlock/Exclusion.antt =====
-- acquire and release of kernel/spinlock.c: one CPU at a time holds a lock.
use os_spring.Prelude.{
  ℕ, ◌≡◌, ◌≢◌, inl, inr, refl, sym, subst, ap, ◌∙◌, true, false, none, some, arith, ◌==◌,
  Bool-cases, Outcome, ok, panic, ◌>>=◌,
}
use os_spring.Spinlock.{Cpu, Spinlock, initlock, holding, push_off, pop_off, acquire, release}
use os_spring.Spinlock.Nesting.{IsMatched, Same, pop_offs-push_offs}

abbrev pub taken_by : ℕ → Spinlock
taken_by me = record { locked = true; cpu = some me }

acquired :
    (me : ℕ) (c c' : Cpu) (lk lk' : Spinlock)
    → acquire me c lk ≡ ok (some lk', c')
    → (lk.locked ≡ false) × (lk' ≡ taken_by me) × (c' ≡ push_off c)
unfolding acquire
acquired me c c' lk lk' e = (ground (arith, e), ground (arith, e), ground (arith, e))

-- A CPU whose acquire succeeds found the lock free and holds it: any other CPU that tries spins
-- with interrupts off, and a second acquire by the same CPU panics.
pub acquire_excludes :
    (me : ℕ) (c c' : Cpu) (lk lk' : Spinlock)
    → acquire me c lk ≡ ok (some lk', c')
    → (lk.locked ≡ false)
      × (holding me lk' ≡ true)
      × ((d : Cpu) → acquire me d lk' ≡ panic)
      × ((j : ℕ) (d : Cpu) → j ≢ me → acquire j d lk' ≡ ok (none, push_off d))
unfolding acquire
acquire_excludes me c c' lk lk' e =
    let (free, taken, _) = acquired me c c' lk lk' e in
    (
      free,
      rw taken (ground arith),
      λ d. rw taken (ground arith),
      λ j d h. rw taken (ground (arith, h)),
    )

release-taken :
    (me : ℕ) (d : Cpu) → release me d (taken_by me) ≡ (pop_off d >>= λ c'. ok (initlock, c'))
unfolding release
release-taken me d = elim (Bool-cases (me == me)) [
  | inl e ↦ rw e refl
  | inr ne ↦ absurd (ground arith)
]

-- What a CPU acquires it can release: release does not panic, the lock is free again, and the
-- depth and whether interrupts are enabled are as before, from a state in which interrupts are off
-- inside a push_off.
release-acquire :
    (me : ℕ) (c c' : Cpu) (lk lk' : Spinlock)
    → IsMatched c
    → acquire me c lk ≡ ok (some lk', c')
    → (c'' : Cpu) × (release me c' lk' ≡ ok (initlock, c'')) × Same c'' c
release-acquire me c c' lk lk' m e =
    let (free, taken, pushed) = acquired me c c' lk lk' e in
    let (d, popped, s) = pop_offs-push_offs 1 c m in
    (
      d,
      subst (λ l. release me c' l ≡ ok (initlock, d)) (sym taken)
          (subst (λ x. release me x (taken_by me) ≡ ok (initlock, d)) (sym pushed)
            (release-taken me (push_off c)
              ∙ ap (λ (o : Outcome Cpu). o >>= λ c''. ok (initlock, c'')) popped)),
      s,
    )

pub acquire_free :
    (me : ℕ) (c : Cpu) (lk : Spinlock)
    → lk.locked ≡ false
    → acquire me c lk ≡ ok (some (taken_by me), push_off c)
unfolding acquire holding
acquire_free me c lk free = ground (arith, free)

-- A processor with interrupts off inside one push_off, with `intena` as it was before.
pub first_push :
    (c : Cpu)
    → c.noff ≡ 0
    → ((push_off c).noff ≡ 1) × ((push_off c).intr ≡ false) × ((push_off c).intena ≡ c.intr)
unfolding push_off
first_push c z = (omega (arith, z), refl, ground (arith, z))

pub release_last :
    (me : ℕ) (d : Cpu)
    → d.noff ≡ 1
    → d.intr ≡ false
    → release me d (taken_by me) ≡ ok (initlock, record d { noff = 0; intr = d.intena })
unfolding pop_off
release_last me d one off = release-taken me d ∙ ground (arith, one, off)

pub holding-taken_by : (me : ℕ) → holding me (taken_by me) ≡ true
unfolding holding
holding-taken_by me = ground arith
