-- ===== src/Ulib/Tests.antt =====
-- Runs of user/ulib.c.
use os_spring.Prelude.{ℕ, ◌≡◌, refl, List, [], ◌∷◌, true, arith, ok}
use os_spring.Printf.User.{printint}
use os_spring.Ulib.{atoi_from, atoi, gets_from, gets}
use os_spring.Ulib.Atoi.{atoi-printint}

-- " 7" is no number for atoi.
atoi_blank : atoi (32 ∷ 55 ∷ []) ≡ 0
unfolding atoi atoi_from
atoi_blank = refl

-- gets keeps the newline.
gets_line : gets 8 (104 ∷ 105 ∷ 10 ∷ 120 ∷ []) ≡ (104 ∷ 105 ∷ 10 ∷ [], 120 ∷ [])
unfolding gets gets_from
gets_line = refl

atoi-printint_example : (out : List ℕ) × (printint 2023 10 true ≡ ok out) × (atoi out ≡ 2023)
atoi-printint_example = atoi-printint 2023 (omega arith) true
