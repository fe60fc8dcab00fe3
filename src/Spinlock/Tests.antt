-- ===== src/Spinlock/Tests.antt =====
-- Runs of kernel/spinlock.c on a CPU with interrupts enabled.
use os_spring.Prelude.{ℕ, ◌≡◌, ◌≢◌, refl, true, false, none, some, arith, ok, panic}
use os_spring.Spinlock.{Cpu, Spinlock, initlock, holding, push_off, acquire}
use os_spring.Spinlock.Nesting.{IsMatched}
use os_spring.Spinlock.Exclusion.{acquire_excludes}

abbrev idle : Cpu
idle = record { noff = 0; intena = false; intr = true }

idle-IsMatched : IsMatched idle
idle-IsMatched h = absurd (omega arith)

abbrev locked : Spinlock
locked = record { locked = true; cpu = some 2 }

idle_acquires : acquire 2 idle initlock ≡ ok (some locked, push_off idle)
unfolding acquire
idle_acquires = refl

acquire_excludes_example :
    (initlock.locked ≡ false)
    × (holding 2 locked ≡ true)
    × ((d : Cpu) → acquire 2 d locked ≡ panic)
    × ((j : ℕ) (d : Cpu) → j ≢ 2 → acquire j d locked ≡ ok (none, push_off d))
acquire_excludes_example = acquire_excludes 2 idle (push_off idle) initlock locked idle_acquires
