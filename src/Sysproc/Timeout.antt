-- ===== src/Sysproc/Timeout.antt =====
-- sys_sleep of kernel/sysproc.c against the clock of kernel/trap.c.
use os_spring.Prelude.{
  ℕ, ◌+◌, ◌-◌, ◌%◌, ◌^◌, ◌<◌, ◌≡◌, refl, false, Option, arith, pos, ltb, if◌then◌else◌,
}
use os_spring.Trap.{Clock}
use os_spring.Trap.Ticks.{after_ticks, ticks-after_ticks}
use os_spring.Sysproc.{answers, sleeps, sleep_turn, sys_sleep}

-- sys_sleep(n) of a process that is not killed: at the clock interrupt number `m` after its start, of
-- fewer than 2^32, it goes on to sleep if m < n, and else ends with 0. This holds when the counter of
-- ticks wraps around too.
pub sleep_turn-after_ticks :
    (me : Option ℕ) (ticks_at n m : ℕ) (c : Clock)
    → c.ticks < 2 ^ 32
    → m < 2 ^ 32
    → let start : ℕ = (sys_sleep n false c).1 in
      sleep_turn n start false (after_ticks me ticks_at m c)
      ≡ (if ltb m n then sleeps else answers (pos 0))
unfolding sleep_turn sys_sleep
sleep_turn-after_ticks me ticks_at n m c h hm =
    let now = ticks-after_ticks me ticks_at m c h in
    let passed : ((c.ticks + m) % 2 ^ 32 + 2 ^ 32 - c.ticks) % 2 ^ 32 ≡ m = omega (arith, h, hm) in
    rw (now, passed) refl
