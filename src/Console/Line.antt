-- ===== src/Console/Line.antt =====
-- The line editor of kernel/console.c: the read, write and edit indices stay in order.
use os_spring.Prelude.{
  ℕ, zero, suc, ◌+◌, ◌%◌, ◌^◌, ◌≤◌, ◌<◌, ◌≡◌, ◌≢◌, inl, inr, refl, Bool, true, false, not, ◌&&◌,
  ◌||◌, arith, get_or, ltb, ◌==◌, Bool-cases, if◌then◌else◌, ok,
}
use os_spring.Console.{
  Console, uint, minus, input_buf, newline, ctrl_d, ctrl_h, ctrl_p, ctrl_u, delete_key, backspace,
  consputc, kill_line, erase_char, save_command, put_char, store_char, end_line, consoleintr,
  up_arrow, down_arrow,
}

-- r <= w <= e <= r + INPUT_BUF_SIZE, for counters that may wrap: the bytes that may be read are
-- among those of the buffer, which holds no more than it has room for.
pub record IsOrdered (s : Console) : Type 0 where
  pub r_in : s.r < 2 ^ 32
  pub w_in : s.w < 2 ^ 32
  pub e_in : s.e < 2 ^ 32
  pub ready : minus s.w s.r ≤ minus s.e s.r
  pub fits : minus s.e s.r ≤ input_buf

-- The fields that the editor's indices are made of.
abbrev SameIndices : Console → Console → Type 0
SameIndices s t = (t.r ≡ s.r) × (t.w ≡ s.w) × (t.e ≡ s.e)

save_command-SameIndices : (s : Console) → SameIndices s (save_command s)
unfolding save_command
save_command-SameIndices s = ground arith

consputc-SameIndices : (c : ℕ) (s : Console) → SameIndices s (consputc c s)
unfolding consputc
consputc-SameIndices c s = ground arith

-- One step back from an edit index that is not the write index.
back :
    (r w e : ℕ)
    → r < 2 ^ 32
    → w < 2 ^ 32
    → e < 2 ^ 32
    → e ≢ w
    → minus w r ≤ minus e r
    → (minus (minus e 1) r + 1 ≡ minus e r) × (minus w r ≤ minus (minus e 1) r)
back r w e hr hw he ne h = (omega arith, omega arith)

-- One step on from an edit index in a buffer that is not full.
on :
    (r e : ℕ)
    → r < 2 ^ 32
    → e < 2 ^ 32
    → minus e r < input_buf
    → minus (uint (e + 1)) r ≡ minus e r + 1
on r e hr he h = omega arith

stepped_back :
    (s : Console)
    → IsOrdered s
    → s.e ≢ s.w
    → IsOrdered (consputc backspace (record s { e = minus s.e 1 }))
unfolding consputc
stepped_back s v ne =
    let b = back s.r s.w s.e v.r_in v.w_in v.e_in ne v.ready in
    record {
      r_in = v.r_in;
      w_in = v.w_in;
      e_in = omega arith;
      ready = b.1;
      fits = omega (arith, b.0, v.fits);
    }

erase_char-IsOrdered : (s : Console) → IsOrdered s → IsOrdered (erase_char s)
unfolding erase_char
erase_char-IsOrdered s v = elim (Bool-cases (s.e == s.w)) [
  | inl e ↦ rw e v
  | inr e ↦ rw e (stepped_back s v (ground (arith, e)))
]

kill_line-IsOrdered :
    (f : ℕ) (s : Console)
    → IsOrdered s
    → minus s.e s.w < f
    → (s' : Console) × (kill_line f s ≡ ok s') × IsOrdered s'
unfolding kill_line consputc
kill_line-IsOrdered zero s v h = absurd (omega arith)
kill_line-IsOrdered (suc f) s v h =
    elim (Bool-cases
      (not (s.e == s.w) && not (get_or s.buf (minus s.e 1 % input_buf) 0 == newline))) [
        | inl more ↦
            let ne : s.e ≢ s.w = ground (arith, more) in
            rw more (
              kill_line-IsOrdered f (consputc backspace (record s { e = minus s.e 1 }))
                (stepped_back s v ne) (omega (arith, v.e_in, v.w_in)))
        | inr done ↦ rw done (s, refl, v)
      ]

store_char-IsOrdered :
    (c : ℕ) (s : Console) → IsOrdered s → minus s.e s.r < input_buf → IsOrdered (store_char c s)
unfolding store_char
store_char-IsOrdered c s v h =
    let (same_r, same_w, same_e) = consputc-SameIndices c s in
    let step = on s.r s.e v.r_in v.e_in h in
    rw (same_r, same_w, same_e)
      (record {
        r_in = v.r_in;
        w_in = v.w_in;
        e_in = omega arith;
        ready = omega (arith, step, v.ready);
        fits = omega (arith, step);
      })

read_all :
    (s t : Console)
    → SameIndices s t
    → IsOrdered s
    → IsOrdered (record t { w = t.e; oldcmd = false })
read_all s t (same_r, same_w, same_e) v =
    rw (same_r, same_e)
      (record { r_in = v.r_in; w_in = v.e_in; e_in = v.e_in; ready = omega arith; fits = v.fits })

end_line-IsOrdered : (s : Console) → IsOrdered s → IsOrdered (end_line s)
unfolding end_line
end_line-IsOrdered s v = read_all s (if s.oldcmd then s else save_command s) (saved s.oldcmd) v
  where
    saved : (b : Bool) → SameIndices s (if b then s else save_command s)
    saved true = (refl, refl, refl)
    saved false = save_command-SameIndices s

put_char-IsOrdered : (c : ℕ) (s : Console) → IsOrdered s → IsOrdered (put_char c s).1
unfolding put_char
put_char-IsOrdered c s v = elim (Bool-cases (not (c == 0) && ltb (minus s.e s.r) input_buf)) [
  | inl room ↦
      let c' = if c == 13 then newline else c in
      let s' = store_char c' s in
      let v' = store_char-IsOrdered c' s v (ground (arith, room)) in
      elim (Bool-cases (c' == newline || (c' == ctrl_d || minus s'.e s'.r == input_buf))) [
        | inl whole ↦ rw (room, whole) (end_line-IsOrdered s' v')
        | inr part ↦ rw (room, part) v'
      ]
  | inr full ↦ rw full v
]

-- Any code but those of the arrow keys: consoleintr comes to an end, given fuel for the line that
-- C('U') may kill, and keeps the indices in order.
pub consoleintr-IsOrdered :
    (fuel c : ℕ) (s : Console)
    → IsOrdered s
    → minus s.e s.w < fuel
    → c ≢ up_arrow
    → c ≢ down_arrow
    → (b : Bool) × (s' : Console) × (consoleintr fuel c s ≡ ok (b, s')) × IsOrdered s'
unfolding consoleintr
consoleintr-IsOrdered fuel c s v h nu nd =
    let not_up : (c == up_arrow) ≡ false = ground arith in
    let not_down : (c == down_arrow) ≡ false = ground arith in
    elim (Bool-cases (c == ctrl_p)) [
      | inl p ↦ rw p (false, s, refl, v)
      | inr np ↦ elim (Bool-cases (c == ctrl_u)) [
        | inl u ↦
            let (s', e, v') = kill_line-IsOrdered fuel s v h in rw (np, u, e) (false, s', refl, v')
        | inr nu ↦ elim (Bool-cases (c == ctrl_h || c == delete_key)) [
          | inl b ↦ rw (np, nu, b) (false, erase_char s, refl, erase_char-IsOrdered s v)
          | inr nb ↦
              rw (np, nu, nb, not_up, not_down)
                ((put_char c s).0, (put_char c s).1, refl, put_char-IsOrdered c s v)
        ]
      ]
    ]
