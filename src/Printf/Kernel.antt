-- ===== src/Printf/Kernel.antt =====
-- printint, printptr and printf of kernel/printf.c.
use os_spring.Prelude.{
  ℕ, ◌%◌, ◌^◌, List, [], ◌∷◌, ◌++◌, Bool, true, false, Option, none, some, ◌==◌, if◌then◌else◌,
  Outcome, ok, panic, ◌>>=◌,
}
use os_spring.Printf.{lower, int_digits, ptr_digits, Arg, take_number, take_string}

pub printint : ℕ → ℕ → Bool → Outcome (List ℕ)
printint xx base sign = int_digits lower xx base sign

printptr : ℕ → List ℕ
printptr x = ptr_digits lower x

-- The switch of printf on the byte after a %.
conversion : ℕ → List Arg → Outcome (List ℕ × List Arg)
unfolding printint printptr
conversion c args =
    if c == 100
    then take_number (λ x. printint (x % 2 ^ 32) 10 true) args
    else if c == 120
    then take_number (λ x. printint (x % 2 ^ 32) 16 true) args
    else if c == 112
    then take_number (λ x. ok (printptr x)) args
    else if c == 115
    then take_string args
    else if c == 37
    then ok (37 ∷ [], args)
    else ok (37 ∷ c ∷ [], args)

-- The loop of printf over the format; a % at the end of it prints nothing.
printf_from : List ℕ → List Arg → Outcome (List ℕ)
unfolding conversion
printf_from [] args = ok []
printf_from (c ∷ []) args = ok (if c == 37 then [] else c ∷ [])
printf_from (c ∷ c' ∷ fmt) args = elim (c == 37) [
  | false ↦ printf_from (c' ∷ fmt) args >>= λ rest. ok (c ∷ rest)
  | true ↦ conversion c' args >>= λ (out, args'). printf_from fmt args' >>= λ rest. ok (out ++ rest)
]

-- printf; none is a null format.
printf : Option (List ℕ) → List Arg → Outcome (List ℕ)
unfolding printf_from
printf none args = panic
printf (some fmt) args = printf_from fmt args
