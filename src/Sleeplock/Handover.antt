-- ===== src/Sleeplock/Handover.antt =====
-- kernel/sleeplock.c: who gets a sleep lock next.
use os_spring.Prelude.{ℕ, ◌≡◌, ◌≢◌, refl, ◌∙◌, true, false, none, some, arith, get_elem?}
use os_spring.Proc.{Proc, Table, at_object, sleeping, runnable}
use os_spring.Proc.Sleep.{wakeup_lem}
use os_spring.Sleeplock.{Sleeplock, acquiresleep, releasesleep, holdingsleep}

-- A process that releases a sleep lock leaves every other process that sleeps on it runnable, and
-- the first to try takes the lock: it then holds it, no process with another pid does, and the next
-- to try sleeps.
releasesleep-acquiresleep :
    (a me pid i : ℕ) (lk : Sleeplock) (t : Table) (p : Proc)
    → get_elem? t i ≡ some p
    → i ≢ me
    → p.state ≡ sleeping
    → p.chan ≡ at_object a
    → let (free, t') = releasesleep a me lk t in
      (get_elem? t' i ≡ some (record p { state = runnable }))
      × ((taken : Sleeplock) × (acquiresleep pid free ≡ some taken)
          × (holdingsleep pid taken ≡ true)
          × ((j : ℕ) → j ≢ pid → (holdingsleep j taken ≡ false) × (acquiresleep j taken ≡ none)))
unfolding acquiresleep releasesleep holdingsleep
releasesleep-acquiresleep a me pid i lk t p at ne asleep on = (
  wakeup_lem t (some me) (at_object a) i p at ∙ ground (arith, asleep, on, ne),
  (record { locked = true; pid = pid }, refl, ground arith, λ j h. (ground (arith, h), refl)),
)
