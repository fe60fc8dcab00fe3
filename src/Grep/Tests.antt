-- ===== src/Grep/Tests.antt =====
-- A run of user/grep.c: the pattern a*b in the text xaab.
use os_spring.Prelude.{◌≡◌, ◌↔◌, [], ◌∷◌, true}
use os_spring.Grep.{match_re, star}
use os_spring.Grep.Language.{Matches, match_re_lem}

match_re_lem_example :
    (match_re (97 ∷ star ∷ 98 ∷ []) (120 ∷ 97 ∷ 97 ∷ 98 ∷ []) ≡ true)
    ↔ Matches (97 ∷ star ∷ 98 ∷ []) (120 ∷ 97 ∷ 97 ∷ 98 ∷ [])
match_re_lem_example = match_re_lem (97 ∷ star ∷ 98 ∷ []) (120 ∷ 97 ∷ 97 ∷ 98 ∷ [])
