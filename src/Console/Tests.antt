-- ===== src/Console/Tests.antt =====
-- Runs of consoleintr of kernel/console.c.
use os_spring.Prelude.{
  ◌-◌, ◌^◌, ◌≡◌, refl, [], ◌∷◌, Bool, true, false, arith, replicate, pos, ok, no_fuel,
}
use os_spring.Console.Read.{consoleread}
use os_spring.Console.Read.Take.{InLine, Reads, consoleread-Reads}
use os_spring.Console.{Console, up_arrow, down_arrow, ctrl_u, consoleintr}
use os_spring.Console.Line.{IsOrdered, consoleintr-IsOrdered}
use os_spring.Console.Arrow.{consoleintr_hangs}

-- A line of three bytes that begins before the counters wrap around; one command in the history.
abbrev typed : Console
typed = record {
  buf = replicate 128 97;
  r = 2 ^ 32 - 2;
  w = 2 ^ 32 - 2;
  e = 1;
  commands = replicate 16 (replicate 128 0);
  lengths = replicate 16 0;
  last_command = 0;
  num_commands = 1;
  current_history = pos 0;
  oldcmd = false;
  first_save = false;
  screen = [];
}

typed-IsOrdered : IsOrdered typed
typed-IsOrdered = record {
  r_in = omega arith;
  w_in = omega arith;
  e_in = omega arith;
  ready = omega arith;
  fits = omega arith;
}

consoleintr-IsOrdered_example :
    (b : Bool) × (s' : Console) × (consoleintr 4 ctrl_u typed ≡ ok (b, s')) × IsOrdered s'
consoleintr-IsOrdered_example =
    consoleintr-IsOrdered 4 ctrl_u typed typed-IsOrdered (omega arith) (omega arith) (omega arith)

abbrev nothing_typed : Console
nothing_typed = record typed { e = typed.r }

consoleintr_hangs_example :
    (consoleintr 5 up_arrow nothing_typed ≡ no_fuel)
    × (consoleintr 5 down_arrow nothing_typed ≡ no_fuel)
consoleintr_hangs_example = consoleintr_hangs 5 0 nothing_typed refl refl

-- "ab" and a newline can be read, of which one byte is wanted.
abbrev entered : Console
entered = record typed { buf = 97 ∷ (98 ∷ (10 ∷ replicate 125 0)); r = 0; w = 3; e = 3 }

consoleread-Reads_example :
    let (r, out, c') = consoleread (λ a. true) false 4096 1 entered in
    InLine out × Reads (λ a. true) false 1 1 4096 entered r out c'
consoleread-Reads_example =
    consoleread-Reads (λ a. true) false 4096 1 entered (omega arith) (omega arith)
