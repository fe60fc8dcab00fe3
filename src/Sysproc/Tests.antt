-- ===== src/Sysproc/Tests.antt =====
-- A process that sleeps for two ticks while the counter wraps around.
use os_spring.Prelude.{◌-◌, ◌^◌, ◌≡◌, [], false, none, arith, pos, ltb, if◌then◌else◌}
use os_spring.Trap.{Clock}
use os_spring.Trap.Ticks.{after_ticks}
use os_spring.Sysproc.{sleep_turn, sys_sleep, sleeps, answers}
use os_spring.Sysproc.Timeout.{sleep_turn-after_ticks}

abbrev late : Clock
late = record { ticks = 2 ^ 32 - 1; procs = [] }

sleep_turn-after_ticks_example :
    sleep_turn 2 (sys_sleep 2 false late).1 false (after_ticks none 0 2 late)
    ≡ (if ltb 2 2 then sleeps else answers (pos 0))
sleep_turn-after_ticks_example = sleep_turn-after_ticks none 0 2 2 late (omega arith) (omega arith)
