-- ===== src/Wc/Tests.antt =====
-- Two lines, read in two parts.
use os_spring.Prelude.{ℕ, ◌≡◌, List, [], ◌∷◌, false, some, arith, length}
use os_spring.Wc.{wc}
use os_spring.Wc.Words.{concat, newlines, words, wc_lem}

-- "ab c\n" and "d\n", cut within the first word
abbrev parts : List (List ℕ)
parts = (97 ∷ []) ∷ (98 ∷ (32 ∷ (99 ∷ (10 ∷ (100 ∷ (10 ∷ [])))))) ∷ []

wc_lem_example :
    wc parts false
    ≡ some (newlines (concat parts), length (words (concat parts)), length (concat parts))
wc_lem_example = wc_lem parts (omega arith)
