-- ===== src/Ulib/Atoi.antt =====
-- atoi of user/ulib.c reads what printint of user/printf.c prints.
use os_spring.Prelude.{
  ℕ, zero, suc, ◌+◌, ◌-◌, ◌*◌, ◌/◌, ◌%◌, ◌^◌, ◌<◌, ◌≡◌, inl, inr, refl, ap, ◌∙◌, List, [], ◌∷◌,
  Bool, true, false, ◌&&◌, arith, leb, ◌==◌, Bool-cases, ok,
}
use os_spring.Printf.{upper, put_digits, int_digits}
use os_spring.Printf.User.{printint}
use os_spring.Ulib.{is_digit, atoi_from, atoi}

-- The digits of x in front of a string take atoi to x, and the string is still to be read.
put_digits-atoi :
    (k x : ℕ) (buf : List ℕ)
    → x < k
    → x < 2 ^ 32
    → (out : List ℕ) × (put_digits upper 10 k x buf ≡ ok out) × (atoi_from 0 out ≡ atoi_from x buf)
unfolding put_digits atoi_from
put_digits-atoi zero x buf h h' = absurd (omega (arith, h))
put_digits-atoi (suc k) x buf h h' =
    let buf' = upper (x % 10) ∷ buf in
    let step : (n : ℕ)
        → n * 10 + x % 10 < 2 ^ 32
        → atoi_from n buf' ≡ atoi_from (n * 10 + x % 10) buf =
      λ n hn.
        let next : (n * 10 + upper (x % 10) - 48) % 2 ^ 32 ≡ n * 10 + x % 10 = ground arith in
        let digit : is_digit (upper (x % 10)) ≡ true = ground arith in
        rw (atoi_from, digit) (ap (λ m. atoi_from m buf) next) in
    elim (Bool-cases (x / 10 == 0)) [
      | inl last ↦ (
        buf',
        rw last refl,
        step 0 (omega arith) ∙ ap (λ m. atoi_from m buf) (ground (arith, last)),
      )
      | inr more ↦
          let (out, e, r) = put_digits-atoi k (x / 10) buf' (ground (arith, more)) (omega arith) in
          (
            out,
            rw more e,
            r ∙ step (x / 10) (omega arith) ∙ ap (λ m. atoi_from m buf) (omega arith),
          )
    ]

-- atoi reads back an int that is not negative from what printint prints of it in base 10.
pub atoi-printint :
    (x : ℕ)
    → x < 2 ^ 31
    → (sgn : Bool) → (out : List ℕ) × (printint x 10 sgn ≡ ok out) × (atoi out ≡ x)
unfolding printint int_digits atoi atoi_from
atoi-printint x h sgn =
    let (out, e, r) = put_digits-atoi (suc x) x [] (omega arith) (omega arith) in
    let sign : (sgn && leb (2 ^ 31) x) ≡ false = ground arith in (out, rw (sign, e) refl, r)
