-- ===== src/Cstring/Move.antt =====
-- memset and memmove of kernel/string.c, byte by byte.
use os_spring.Prelude.{
  ℕ, zero, suc, ◌+◌, ◌-◌, ◌%◌, ◌≤◌, ◌≡◌, ◌⊎◌, ap, ◌&&◌, arith, ltb, leb, if◌then◌else◌,
}
use os_spring.Cstring.{Mem, store, memset, memset_from, move_up, move_down, memmove}

memset_from_lem :
    (n dst c : ℕ) (mem : Mem) (a : ℕ)
    → memset_from n dst c mem a ≡ (if leb dst a && ltb a (dst + n) then c else mem a)
unfolding memset_from
memset_from_lem zero dst c mem a = ground arith
memset_from_lem (suc n) dst c mem a =
    ground (arith, memset_from_lem n (dst + 1) c (store mem dst c) a)

-- memset sets the n bytes from dst on to c, cut to a byte, and no other byte.
memset_lem :
    (dst c n : ℕ) (mem : Mem) (a : ℕ)
    → memset dst c n mem a ≡ (if leb dst a && ltb a (dst + n) then c % 256 else mem a)
unfolding memset
memset_lem dst c n mem a = memset_from_lem n dst (c % 256) mem a

-- The bytes that a move from s to d should leave.
abbrev pub moved : ℕ → ℕ → ℕ → Mem → ℕ → ℕ
moved d s n mem a = if leb d a && ltb a (d + n) then mem (s + (a - d)) else mem a

pub move_up_lem :
    (n d s : ℕ) (mem : Mem) (a : ℕ)
    → (d ≤ s) ⊎ (s + n ≤ d)
    → move_up d s n mem a ≡ moved d s n mem a
unfolding move_up
move_up_lem zero d s mem a h = ground arith
move_up_lem (suc n) d s mem a h = ground (
  arith,
  move_up_lem n (d + 1) (s + 1) (store mem d (mem s)) a,
  λ (p : s + 1 + (a - (d + 1)) ≡ s + (a - d)). ap mem p,
  λ (p : s ≡ s + (a - d)). ap mem p,
)

pub move_down_lem :
    (n d s : ℕ) (mem : Mem) (a : ℕ) → s ≤ d → move_down d s n mem a ≡ moved d s n mem a
unfolding move_down
move_down_lem zero d s mem a h = ground arith
move_down_lem (suc n) d s mem a h = ground (
  arith,
  move_down_lem n d s (store mem (d + n) (mem (s + n))) a,
  λ (p : s + n ≡ s + (a - d)). ap mem p,
)

-- memmove copies the n bytes at s, as they were before the call, to d, whichever way the two areas
-- overlap, and changes no other byte.
pub memmove_lem : (d s n : ℕ) (mem : Mem) (a : ℕ) → memmove d s n mem a ≡ moved d s n mem a
unfolding memmove
memmove_lem d s n mem a = ground (arith, move_up_lem n d s mem a, move_down_lem n d s mem a)
