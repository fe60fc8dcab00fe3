-- ===== src/Printf/Digits.antt =====
-- printint of kernel/printf.c and user/printf.c: how many bytes it puts in its buffer.
use os_spring.Prelude.{
  ℕ, zero, suc, ◌+◌, ◌-◌, ◌*◌, ◌/◌, ◌%◌, ◌^◌, ◌≤◌, ◌<◌, ◌≡◌, ◌⊎◌, inl, inr, refl, sym, subst, List,
  [], ◌∷◌, Bool, true, ◌&&◌, arith, length, leb, ◌==◌, Bool-cases, if◌then◌else◌, ok,
}
use os_spring.Printf.{put_digits, int_digits}

abbrev IsBase : ℕ → Type 0
IsBase base = (base ≡ 10) ⊎ (base ≡ 16)

-- 10 ^ j
pow10 : ℕ → ℕ
pow10 zero = 1
pow10 (suc j) = pow10 j * 10

quotient_le : (x base : ℕ) → IsBase base → x / base ≤ x / 10
quotient_le x base b = elim b [
  | inl e ↦ subst (λ y. x / y ≤ x / 10) (sym e) (omega arith)
  | inr e ↦ subst (λ y. x / y ≤ x / 10) (sym e) (omega arith)
]

put_digits-length :
    (digits : ℕ → ℕ) (base k j x : ℕ) (buf : List ℕ)
    → IsBase base
    → x < k
    → x < pow10 (suc j)
    → (out : List ℕ) × (put_digits digits base k x buf ≡ ok out)
      × (length out ≤ suc j + length buf)
      × (0 < length out)
unfolding put_digits pow10
put_digits-length digits base zero j x buf b h h' = absurd (omega (arith, h))
put_digits-length digits base (suc k) zero x buf b h h' =
    let last : (x / base == 0) ≡ true = ground (arith, quotient_le x base b, h') in
    (digits (x % base) ∷ buf, rw last refl, omega arith, omega arith)
put_digits-length digits base (suc k) (suc j) x buf b h h' = elim (Bool-cases (x / base == 0)) [
  | inl last ↦ (digits (x % base) ∷ buf, rw last refl, omega arith, omega arith)
  | inr more ↦
      let smaller : x / base < k = ground (arith, quotient_le x base b, h, more) in
      let bound : x / base < pow10 (suc j) = omega (arith, quotient_le x base b, h') in
      let (out, e, l, l') =
        put_digits-length digits base k j (x / base) (digits (x % base) ∷ buf) b smaller bound in
      (out, rw more e, omega (arith, l), l')
]

-- printint of an int, in base 10 or 16, ends and has stored at most 11 bytes, which its buffer of 16
-- has room for, and one at least.
int_digits-length :
    (digits : ℕ → ℕ) (xx base : ℕ) (sign : Bool)
    → xx < 2 ^ 32
    → IsBase base
    → (out : List ℕ) × (int_digits digits xx base sign ≡ ok out)
      × (length out ≤ 11)
      × (0 < length out)
unfolding int_digits pow10
int_digits-length digits xx base sign h b =
    let negative = sign && leb (2 ^ 31) xx in
    let x = if negative then (2 ^ 32 - xx) % 2 ^ 32 else xx in
    let small : x < 10000000000 = ground arith in
    let (out, e, l, l') = put_digits-length digits base (suc x) 9 x [] b (omega arith) small in
    elim (Bool-cases negative) [
      | inl n ↦ (45 ∷ out, rw (e, n) refl, omega (arith, l), omega arith)
      | inr n ↦ (out, rw (e, n) refl, omega (arith, l), l')
    ]
