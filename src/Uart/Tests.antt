-- ===== src/Uart/Tests.antt =====
-- Runs of kernel/uart.c with two bytes pending.
use os_spring.Prelude.{
  ◌+◌, ◌%◌, ◌<◌, ◌≡◌, ◌⊎◌, List, [], ◌∷◌, ◌++◌, Bool, true, false, none, some, arith,
}
use os_spring.Uart.{Uart, tx_buf_size, uartputc}
use os_spring.Uart.Order.{IsValid, count, all_bytes, uartputc_lem}

abbrev two_pending : Uart
two_pending = record { buf = λ i. 65 + i; w = 34; r = 32; sent = 72 ∷ []; procs = [] }

two_pending-IsValid : IsValid two_pending
two_pending-IsValid = record { read_in = omega arith; write_in = omega arith; fits = omega arith }

uartputc_lem_example :
    ((uartputc 0 90 (true ∷ false ∷ []) two_pending ≡ none) × (count two_pending ≡ tx_buf_size))
    ⊎ ((lsr' : List Bool) × (u' : Uart) × (uartputc 0 90 (true ∷ false ∷ []) two_pending
          ≡ some (lsr', u'))
        × (count two_pending < tx_buf_size)
        × IsValid u'
        × (all_bytes u' ≡ all_bytes two_pending ++ 90 % 256 ∷ []))
uartputc_lem_example = uartputc_lem 0 90 (true ∷ false ∷ []) two_pending two_pending-IsValid
