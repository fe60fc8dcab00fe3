-- ===== src/Sh/Tests.antt =====
-- Runs of the parser of user/sh.c.
use os_spring.Prelude.{◌≡◌, ◌⊎◌, refl, [], ◌∷◌, ok, panic}
use os_spring.Sh.{
  Cmd, exec, redir, pipe, list, back, skip, word, greater, token, gettoken, member, peek, wrap,
  parseredirs, parseargs, parseblock, parseexec, parsepipe, parsebacks, parseline, parsecmd,
}
use os_spring.Sh.Ends.{parsecmd_ends}

-- a<b|c;d&
parsed :
    parsecmd (97 ∷ 60 ∷ 98 ∷ 124 ∷ 99 ∷ 59 ∷ 100 ∷ 38 ∷ [])
    ≡ ok (
        list
          (pipe (redir (exec ((97 ∷ []) ∷ [])) (98 ∷ []) 0 0) (exec ((99 ∷ []) ∷ [])))
          (back (exec ((100 ∷ []) ∷ []))))
unfolding skip word greater token gettoken member peek wrap parseredirs parseargs parseblock
    parseexec parsepipe parsebacks parseline parsecmd
parsed = refl

-- (a
unclosed : parsecmd (40 ∷ 97 ∷ []) ≡ panic
unfolding skip word greater token gettoken member peek wrap parseredirs parseargs parseblock
    parseexec parsepipe parsebacks parseline parsecmd
unclosed = refl

parsecmd_ends_example :
    (parsecmd (40 ∷ 97 ∷ 41 ∷ 38 ∷ []) ≡ panic)
    ⊎ ((cmd : Cmd) × (parsecmd (40 ∷ 97 ∷ 41 ∷ 38 ∷ []) ≡ ok cmd))
parsecmd_ends_example = parsecmd_ends (40 ∷ 97 ∷ 41 ∷ 38 ∷ [])
