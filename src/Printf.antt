-- ===== src/Printf.antt =====
-- kernel/printf.c and user/printf.c: printing of numbers and formats. A string is the list of its bytes
-- before the 0, what is printed the list of the bytes given to consputc, or written by putc. An int
-- is its 32 bits, a uint64 its 64. The lock `pr.lock` is not modelled.
pub mod Digits
pub mod Kernel
pub mod User
mod Tests
use os_spring.Prelude.{
  ℕ, zero, suc, ◌+◌, ◌-◌, ◌*◌, ◌/◌, ◌%◌, ◌^◌, ◌≤◌, ◌<◌, ◌≡◌, ◌≢◌, ◌⊎◌, ◌↔◌, inl, inr, refl, sym,
  subst, ap, ◌∙◌, fun_ext, List, [], ◌∷◌, ◌++◌, map, Bool, true, false, not, ◌&&◌, ◌||◌, Option,
  none, some, some-injective, arith, All, All-map, length, get_elem?, get_or, set, take, drop,
  replicate, length-append, length-set, get_or-set_self, get_elem?-set_self, get_elem?-set_ne,
  get_or-set_ne, ℤ, pos, negsuc, sub_ℕ, sub_ℕ-eq_zero, ltb, leb, ◌==◌, ==_iff, Bool-cases,
  Option-cases, if◌then◌else◌, Outcome, ok, panic, fault, no_fuel, ◌>>=◌,
}

-- digits[d] of kernel/printf.c, of user/printf.c
abbrev pub lower : ℕ → ℕ
lower d = if ltb d 10 then 48 + d else 87 + d

abbrev pub upper : ℕ → ℕ
upper d = if ltb d 10 then 48 + d else 55 + d

-- do { buf[i++] = digits[x % base]; } while ((x /= base) != 0); the last byte of `buf` first, with fuel.
unfoldable pub put_digits : (ℕ → ℕ) → ℕ → ℕ → ℕ → List ℕ → Outcome (List ℕ)
put_digits digits base zero x buf = no_fuel
put_digits digits base (suc k) x buf =
    let buf' = digits (x % base) ∷ buf in
    let rest = put_digits digits base k (x / base) buf' in if x / base == 0 then ok buf' else rest

-- printint up to the printing: what the loop over `buf` from its end on gives to `put`. A base is at
-- least 2, so a number has fewer digits than x + 1.
unfoldable pub int_digits : (ℕ → ℕ) → ℕ → ℕ → Bool → Outcome (List ℕ)
int_digits digits xx base sign =
    let negative = sign && leb (2 ^ 31) xx in
    let x = if negative then (2 ^ 32 - xx) % 2 ^ 32 else xx in
    put_digits digits base (suc x) x [] >>= λ buf. ok (if negative then 45 ∷ buf else buf)

-- The loop of printptr.
pub hex_digits : (ℕ → ℕ) → ℕ → ℕ → List ℕ
hex_digits digits zero x = []
hex_digits digits (suc k) x = digits (x / 2 ^ 60) ∷ hex_digits digits k (x * 16 % 2 ^ 64)

abbrev pub ptr_digits : (ℕ → ℕ) → ℕ → List ℕ
ptr_digits digits x = 48 ∷ 120 ∷ hex_digits digits 16 x

-- What va_arg takes: 64 bits, or a string, none for a null pointer.
pub data Arg : Type 0 where
  number : ℕ → Arg
  string : Option (List ℕ) → Arg

-- s = "(null)" for a null pointer
abbrev string_or_null : Option (List ℕ) → List ℕ
string_or_null none = 40 ∷ 110 ∷ 117 ∷ 108 ∷ 108 ∷ 41 ∷ []
string_or_null (some s) = s

-- The next argument for a conversion that prints a number, a string; an argument that is missing or of
-- the other kind is a fault.
abbrev pub take_number : (ℕ → Outcome (List ℕ)) → List Arg → Outcome (List ℕ × List Arg)
take_number f (number x ∷ args) = f x >>= λ out. ok (out, args)
take_number f _ = fault

abbrev pub take_string : List Arg → Outcome (List ℕ × List Arg)
take_string (string s ∷ args) = ok (string_or_null s, args)
take_string _ = fault
