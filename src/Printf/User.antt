-- ===== src/Printf/User.antt =====
-- printint, printptr and vprintf of user/printf.c.
use os_spring.Prelude.{
  ℕ, ◌%◌, ◌^◌, List, [], ◌∷◌, ◌++◌, Bool, true, false, ◌==◌, if◌then◌else◌, Outcome, ok, ◌>>=◌,
}
use os_spring.Printf.{upper, int_digits, ptr_digits, Arg, take_number, take_string}

unfoldable pub printint : ℕ → ℕ → Bool → Outcome (List ℕ)
printint xx base sgn = int_digits upper xx base sgn

printptr : ℕ → List ℕ
printptr x = ptr_digits upper x

-- The branch of vprintf after a %.
conversion : ℕ → List Arg → Outcome (List ℕ × List Arg)
unfolding printint printptr
conversion c args =
    if c == 100
    then take_number (λ x. printint (x % 2 ^ 32) 10 true) args
    else if c == 108
    then take_number (λ x. printint (x % 2 ^ 32) 10 false) args
    else if c == 120
    then take_number (λ x. printint (x % 2 ^ 32) 16 false) args
    else if c == 112
    then take_number (λ x. ok (printptr x)) args
    else if c == 115
    then take_string args
    else if c == 99
    then take_number (λ x. ok (x % 256 ∷ [])) args
    else if c == 37
    then ok (37 ∷ [], args)
    else ok (37 ∷ c ∷ [], args)

-- The loop of vprintf; the first argument is whether `state` is '%'.
vprintf_from : Bool → List ℕ → List Arg → Outcome (List ℕ)
unfolding conversion
vprintf_from state [] args = ok []
vprintf_from false (c ∷ fmt) args = elim (c == 37) [
  | true ↦ vprintf_from true fmt args
  | false ↦ vprintf_from false fmt args >>= λ rest. ok (c ∷ rest)
]
vprintf_from true (c ∷ fmt) args =
    conversion c args >>= λ (out, args'). vprintf_from false fmt args' >>= λ rest. ok (out ++ rest)

vprintf : List ℕ → List Arg → Outcome (List ℕ)
unfolding vprintf_from
vprintf fmt args = vprintf_from false fmt args
