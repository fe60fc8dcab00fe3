-- ===== src/Uart.antt =====
-- kernel/uart.c: the ring of bytes to send. The device is the bytes written to THR, the first first,
-- and what the next readings of LSR say about LSR_TX_IDLE; after these it says no. The lock is held
-- across each step.
pub mod Order
mod Tests
use os_spring.Prelude.{
  ℕ, zero, suc, ◌+◌, ◌-◌, ◌*◌, ◌/◌, ◌%◌, ◌^◌, ◌≤◌, ◌<◌, ◌≡◌, ◌≢◌, ◌⊎◌, ◌↔◌, inl, inr, refl, sym,
  subst, ap, ◌∙◌, fun_ext, List, [], ◌∷◌, ◌++◌, map, Bool, true, false, not, ◌&&◌, ◌||◌, Option,
  none, some, some-injective, arith, All, All-map, length, get_elem?, get_or, set, take, drop,
  replicate, length-append, length-set, get_or-set_self, get_elem?-set_self, get_elem?-set_ne,
  get_or-set_ne, ℤ, pos, negsuc, sub_ℕ, sub_ℕ-eq_zero, ltb, leb, ◌==◌, ==_iff, Bool-cases,
  Option-cases, if◌then◌else◌, Outcome, ok, panic, fault, no_fuel, ◌>>=◌,
}
use os_spring.Proc.{Table, at_object, wakeup}

-- UART_TX_BUF_SIZE
abbrev pub tx_buf_size : ℕ
tx_buf_size = 32

pub record Uart : Type 0 where
  pub buf : ℕ → ℕ
  pub w : ℕ
  pub r : ℕ
  pub sent : List ℕ
  pub procs : Table

abbrev pub store : (ℕ → ℕ) → ℕ → ℕ → ℕ → ℕ
store f i v j = if i == j then v else f j

-- A round of the loop of uartstart that sends a byte; `addr` is the address of uart_tx_r. wakeup leaves
-- out the process that runs, which does not sleep, so no process is left out here.
pub send : ℕ → Uart → Uart
send addr u = record u {
  r = (u.r + 1) % 2 ^ 64;
  sent = u.sent ++ u.buf (u.r % tx_buf_size) ∷ [];
  procs = wakeup none (at_object addr) u.procs;
}

-- The readings of LSR are the second argument; those not made are answered.
pub uartstart : ℕ → List Bool → Uart → List Bool × Uart
uartstart addr [] u = ([], u)
uartstart addr (idle ∷ lsr) u =
    let rest = uartstart addr lsr (send addr u) in
    if u.w == u.r then (idle ∷ lsr, u) else if not idle then (lsr, u) else rest

-- uartputc, when no panic has happened; none where it sleeps since the buffer is full.
pub uartputc : ℕ → ℕ → List Bool → Uart → Option (List Bool × Uart)
unfolding uartstart
uartputc addr c lsr u =
    if u.w == (u.r + tx_buf_size) % 2 ^ 64
    then none
    else some (
        uartstart addr lsr
          (record u { buf = store u.buf (u.w % tx_buf_size) (c % 256); w = (u.w + 1) % 2 ^ 64 }))
