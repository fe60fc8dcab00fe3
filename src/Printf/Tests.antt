-- ===== src/Printf/Tests.antt =====
-- Runs of printint of kernel/printf.c and user/printf.c.
use os_spring.Prelude.{◌^◌, ◌≡◌, refl, [], ◌∷◌, true, ok}
use os_spring.Printf.{upper, put_digits, int_digits}

-- -2147483648
smallest :
    int_digits upper (2 ^ 31) 10 true
    ≡ ok (45 ∷ 50 ∷ 49 ∷ 52 ∷ 55 ∷ 52 ∷ 56 ∷ 51 ∷ 54 ∷ 52 ∷ 56 ∷ [])
unfolding put_digits int_digits
smallest = refl
