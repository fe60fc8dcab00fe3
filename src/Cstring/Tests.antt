-- ===== src/Cstring/Tests.antt =====
-- Runs of the routines of kernel/string.c.
use os_spring.Prelude.{◌≡◌, refl, ◌&&◌, arith, ltb, leb, if◌then◌else◌}
use os_spring.Cstring.{Mem, memmove}
use os_spring.Cstring.Move.{moved, memmove_lem}
use os_spring.Cstring.Copy.{EndsAt}

-- The string of three bytes 9 at 100, and zeros from there on.
abbrev nines : Mem
nines a = if leb 100 a && ltb a 103 then 9 else 0

nines-EndsAt : EndsAt 100 3 nines
nines-EndsAt = (refl, λ j h. ground arith)

memmove_lem_example : memmove 101 100 3 nines 103 ≡ moved 101 100 3 nines 103
memmove_lem_example = memmove_lem 101 100 3 nines 103
