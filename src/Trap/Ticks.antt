-- ===== src/Trap/Ticks.antt =====
-- The clock of kernel/trap.c over many interrupts.
use os_spring.Prelude.{ℕ, zero, suc, ◌+◌, ◌%◌, ◌^◌, ◌<◌, ◌≡◌, ◌∙◌, Option, arith}
use os_spring.Trap.{Clock, clockintr}

-- The clock after `m` interrupts.
pub after_ticks : Option ℕ → ℕ → ℕ → Clock → Clock
after_ticks me ticks_at zero c = c
after_ticks me ticks_at (suc m) c = after_ticks me ticks_at m (clockintr me ticks_at c)

pub ticks-after_ticks :
    (me : Option ℕ) (ticks_at m : ℕ) (c : Clock)
    → c.ticks < 2 ^ 32
    → (after_ticks me ticks_at m c).ticks ≡ (c.ticks + m) % 2 ^ 32
unfolding after_ticks clockintr
ticks-after_ticks me ticks_at zero c h = omega (arith, h)
ticks-after_ticks me ticks_at (suc m) c h =
    ticks-after_ticks me ticks_at m (clockintr me ticks_at c) (omega arith) ∙ omega (arith, h)
