-- ===== src/Uart/Order.antt =====
-- kernel/uart.c sends every byte once and in order.
use mathlib.Core.Path.{ap₂}
use os_spring.Prelude.{
  ℕ, zero, suc, ◌+◌, ◌-◌, ◌%◌, ◌^◌, ◌≤◌, ◌<◌, ◌≡◌, ◌≢◌, ◌⊎◌, inl, inr, refl, sym, ap, ◌∙◌, List, [],
  ◌∷◌, ◌++◌, Bool, none, some, arith, ◌==◌, ==_iff, Bool-cases,
}
use os_spring.Uart.{Uart, tx_buf_size, store, send, uartstart, uartputc}

-- The `n` bytes of the ring from the counter value `s` on.
abbrev window : (ℕ → ℕ) → ℕ → ℕ → List ℕ
window buf s zero = []
window buf s (suc n) = buf (s % tx_buf_size) ∷ window buf (s + 1) n

abbrev pub count : Uart → ℕ
count u = (u.w + 2 ^ 64 - u.r) % 2 ^ 64

abbrev pending : Uart → List ℕ
pending u = window u.buf u.r (count u)

pub record IsValid (u : Uart) : Type 0 where
  pub read_in : u.r < 2 ^ 64
  pub write_in : u.w < 2 ^ 64
  pub fits : count u ≤ tx_buf_size

window-congr :
    (buf : ℕ → ℕ) (n s t : ℕ) → s % tx_buf_size ≡ t % tx_buf_size → window buf s n ≡ window buf t n
window-congr buf zero s t e = refl
window-congr buf (suc n) s t e =
    ap₂ ◌∷◌ (ap buf e) (window-congr buf n (s + 1) (t + 1) (omega arith))

window-store :
    (buf : ℕ → ℕ) (n s w c : ℕ)
    → n < tx_buf_size
    → w % tx_buf_size ≡ (s + n) % tx_buf_size
    → window (store buf (w % tx_buf_size) c) s (suc n) ≡ window buf s n ++ c ∷ []
window-store buf zero s w c h e = ap (λ (x : ℕ). x ∷ []) (ground (arith, e))
window-store buf (suc n) s w c h e =
    ap₂ ◌∷◌ (ground (arith, e, h)) (window-store buf n (s + 1) w c (omega arith) (omega arith))

append_assoc : (xs ys zs : List ℕ) → (xs ++ ys) ++ zs ≡ xs ++ (ys ++ zs)
append_assoc [] ys zs = refl
append_assoc (x ∷ xs) ys zs = ap (λ l. x ∷ l) (append_assoc xs ys zs)

-- The bytes sent, and then those still pending.
abbrev pub all_bytes : Uart → List ℕ
all_bytes u = u.sent ++ pending u

module _ (addr : ℕ) where
  send_lem :
      (u : Uart)
      → IsValid u
      → u.w ≢ u.r
      → IsValid (send addr u) × (all_bytes (send addr u) ≡ all_bytes u)
  unfolding send
  send_lem u v ne =
      let more : count u ≡ suc (count (send addr u)) = omega (arith, v.read_in, v.write_in, ne) in
      let next : window u.buf (u.r + 1) (count (send addr u)) ≡ pending (send addr u) =
        window-congr u.buf (count (send addr u)) (u.r + 1) ((u.r + 1) % 2 ^ 64) (omega arith) in
      (
        record { read_in = omega arith; write_in = v.write_in; fits = omega (arith, v.fits, more) },
        append_assoc u.sent (u.buf (u.r % tx_buf_size) ∷ []) (pending (send addr u))
            ∙ ap (λ l. u.sent ++ (u.buf (u.r % tx_buf_size) ∷ l)) (sym next)
            ∙ ap (λ n. u.sent ++ window u.buf u.r n) (sym more),
      )

  uartstart_lem :
      (lsr : List Bool) (u : Uart)
      → IsValid u
      → IsValid (uartstart addr lsr u).1 × (all_bytes (uartstart addr lsr u).1 ≡ all_bytes u)
  unfolding uartstart
  uartstart_lem [] u v = (v, refl)
  uartstart_lem (idle ∷ lsr) u v = elim (Bool-cases (u.w == u.r)) [
    | inl empty ↦ rw empty (v, refl)
    | inr some_left ↦ elim (Bool-cases idle) [
      | inr busy ↦ rw (some_left, busy) (v, refl)
      | inl free ↦
          let (v', e) = send_lem u v (ground (arith, some_left)) in
          let (v'', e') = uartstart_lem lsr (send addr u) v' in rw (some_left, free) (v'', e' ∙ e)
    ]
  ]

  -- uartputc on a valid ring sleeps exactly when it holds UART_TX_BUF_SIZE bytes. Otherwise it keeps the
  -- ring valid, and the bytes sent with those still pending are those from before, in their order, and
  -- then the new one.
  pub uartputc_lem :
      (c : ℕ) (lsr : List Bool) (u : Uart)
      → IsValid u
      → ((uartputc addr c lsr u ≡ none) × (count u ≡ tx_buf_size))
        ⊎ ((lsr' : List Bool) × (u' : Uart) × (uartputc addr c lsr u ≡ some (lsr', u'))
            × (count u < tx_buf_size)
            × IsValid u'
            × (all_bytes u' ≡ all_bytes u ++ c % 256 ∷ []))
  unfolding uartputc
  uartputc_lem c lsr u v = elim (Bool-cases (u.w == (u.r + tx_buf_size) % 2 ^ 64)) [
    | inl full ↦ inl (
      rw full refl,
      omega (arith, v.read_in, v.write_in, (==_iff u.w ((u.r + tx_buf_size) % 2 ^ 64)).0 full),
    )
    | inr room ↦
        let put = record u {
          buf = store u.buf (u.w % tx_buf_size) (c % 256);
          w = (u.w + 1) % 2 ^ 64;
        } in
        let wi : (u.w ≡ (u.r + tx_buf_size) % 2 ^ 64) → ⊥ =
          λ e. cc (sym room ∙ (==_iff u.w ((u.r + tx_buf_size) % 2 ^ 64)).1 e) in
        let less : count u < tx_buf_size = omega (arith, v.read_in, v.write_in, v.fits, wi) in
        let one_more : count put ≡ suc (count u) = omega (arith, v.read_in, v.write_in, less) in
        let v_put : IsValid put = record {
          read_in = v.read_in;
          write_in = omega arith;
          fits = omega (arith, one_more, less);
        } in
        let (v', e) = uartstart_lem lsr put v_put in
        inr (
          (uartstart addr lsr put).0,
          (uartstart addr lsr put).1,
          rw room refl,
          less,
          v',
          e
              ∙ ap (λ n. u.sent ++ window put.buf u.r n) one_more
              ∙ ap (λ l. u.sent ++ l)
                  (window-store u.buf (count u) u.r u.w (c % 256) less
                    (omega (arith, v.read_in, v.write_in, less)))
              ∙ sym (append_assoc u.sent (pending u) (c % 256 ∷ [])),
        )
  ]
