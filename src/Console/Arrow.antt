-- ===== src/Console/Arrow.antt =====
-- The arrow keys of kernel/console.c: when the erasing loop ends, and when it never does.
use os_spring.Prelude.{
  ℕ, zero, suc, ◌+◌, ◌<◌, ◌≡◌, ◌≢◌, refl, List, ◌∷◌, false, arith, length, ℤ, pos, ok, no_fuel,
}
use os_spring.Console.{
  Console, minus, up_arrow, down_arrow, backspace, consputc, is_one, to_int, erase_from,
  erase_current_line, show_command, up_key, down_key, consoleintr,
}

-- On an empty line the loop makes no progress, whatever its fuel.
erase_from_empty :
    (f : ℕ) (length : ℤ) (s : Console)
    → s.e ≡ s.r
    → is_one length ≡ false
    → erase_from f length s ≡ no_fuel
unfolding erase_from
erase_from_empty zero length s h l = refl
erase_from_empty (suc f) length s h l = ground (arith, h, l, erase_from_empty f length s h l)

minus_self : (a b : ℕ) → a ≡ b → minus a b ≡ 0
minus_self a b h = omega arith

-- With nothing typed since the last line was read, and a history to go through, the codes 65 and 66
-- ('A' and 'B', taken for the arrow keys) make consoleintr run for ever: no fuel is enough.
pub consoleintr_hangs :
    (fuel n : ℕ) (s : Console)
    → s.e ≡ s.r
    → s.current_history ≡ pos n
    → (consoleintr fuel up_arrow s ≡ no_fuel) × (consoleintr fuel down_arrow s ≡ no_fuel)
unfolding consoleintr up_key down_key show_command erase_current_line
consoleintr_hangs fuel n s h c =
    let stuck : erase_from fuel (to_int (minus (minus s.e s.r) 1)) s ≡ no_fuel =
      erase_from_empty fuel (to_int (minus (minus s.e s.r) 1)) s h (rw (minus_self s.e s.r h)) in
    (rw (c, stuck), rw (c, stuck))

-- What consputc(BACKSPACE) sends, k times.
abbrev erased : ℕ → List ℕ → List ℕ
erased zero screen = screen
erased (suc k) screen = erased k (8 ∷ 32 ∷ 8 ∷ screen)

erase_from_lem :
    (k f : ℕ) (s : Console)
    → k < f
    → s.e ≢ s.r
    → erase_from f (pos (suc k)) s ≡ ok (record s { screen = erased k s.screen })
unfolding erase_from consputc
erase_from_lem k zero s h ne = absurd (omega arith)
erase_from_lem zero (suc f) s h ne = refl
erase_from_lem (suc k) (suc f) s h ne =
    ground (arith, erase_from_lem k f (consputc backspace s) (omega arith) ne)

-- With n + 2 bytes on the line, the two last being those of the arrow key's escape sequence, the
-- line is erased: n backspaces are sent and the edit index goes back to the read index.
erase_current_line_lem :
    (n fuel : ℕ) (s : Console)
    → minus s.e s.r ≡ n + 2
    → n < 128
    → n < fuel
    → erase_current_line fuel s ≡ ok (record s { screen = erased n s.screen; e = s.r })
unfolding erase_current_line
erase_current_line_lem n fuel s e small h =
    let length : to_int (minus (minus s.e s.r) 1) ≡ pos (suc n) = ground (arith, e) in
    let ne : s.e ≢ s.r = omega arith in rw (length, erase_from_lem n fuel s h ne)
