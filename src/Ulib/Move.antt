-- ===== src/Ulib/Move.antt =====
-- memmove of user/ulib.c against the one of kernel/string.c.
use os_spring.Prelude.{ℕ, ◌≡◌, arith}
use os_spring.Cstring.{Mem}
use os_spring.Cstring
use os_spring.Cstring.Move.{move_up_lem, move_down_lem, memmove_lem}
use os_spring.Ulib.{memmove}

-- memmove of the user library and of the kernel leave the same memory, however the areas overlap.
memmove-memmove :
    (d s n : ℕ) (mem : Mem) (a : ℕ) → memmove d s n mem a ≡ Cstring.memmove d s n mem a
unfolding memmove
memmove-memmove d s n mem a =
    ground (arith, move_up_lem n d s mem a, move_down_lem n d s mem a, memmove_lem d s n mem a)
