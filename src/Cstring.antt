-- ===== src/Cstring.antt =====
-- kernel/string.c: the routines on bytes and C strings. Memory is a function from addresses to
-- bytes (char is unsigned on RISC-V); a routine that writes returns the new memory. A uint or
-- non-negative int length is a number, and the loops recur on the rounds left.
pub mod Move
pub mod Compare
pub mod Copy
mod Tests
use os_spring.Prelude.{
  ℕ, zero, suc, ◌+◌, ◌-◌, ◌*◌, ◌/◌, ◌%◌, ◌^◌, ◌≤◌, ◌<◌, ◌≡◌, ◌≢◌, ◌⊎◌, ◌↔◌, inl, inr, refl, sym,
  subst, ap, ◌∙◌, fun_ext, List, [], ◌∷◌, ◌++◌, map, Bool, true, false, not, ◌&&◌, ◌||◌, Option,
  none, some, arith, All, All-map, length, get_elem?, get_or, set, take, drop, replicate,
  length-append, length-set, get_or-set_self, get_or-set_ne, ℤ, pos, negsuc, sub_ℕ, sub_ℕ-eq_zero,
  ltb, leb, ◌==◌, ==_iff, Bool-cases, Option-cases, if◌then◌else◌, Outcome, ok, panic, fault,
  no_fuel, ◌>>=◌,
}

abbrev pub Mem : Type 0
Mem = ℕ → ℕ

abbrev pub store : Mem → ℕ → ℕ → Mem
store mem a v b = if a == b then v else mem b

pub memset_from : ℕ → ℕ → ℕ → Mem → Mem
memset_from zero dst c mem = mem
memset_from (suc k) dst c mem = memset_from k (dst + 1) c (store mem dst c)

-- memset(dst, c, n): the int c is cut to a char.
pub memset : ℕ → ℕ → ℕ → Mem → Mem
memset dst c n mem = memset_from n dst (c % 256) mem

pub memcmp : ℕ → ℕ → ℕ → Mem → ℤ
memcmp s1 s2 zero mem = pos 0
memcmp s1 s2 (suc n) mem =
    let rest = memcmp (s1 + 1) (s2 + 1) n mem in
    if mem s1 == mem s2 then rest else sub_ℕ (mem s1) (mem s2)

-- while (n-- > 0) *d++ = *s++;
pub move_up : ℕ → ℕ → ℕ → Mem → Mem
move_up d s zero mem = mem
move_up d s (suc n) mem = move_up (d + 1) (s + 1) n (store mem d (mem s))

-- s += n; d += n; while (n-- > 0) *--d = *--s;
pub move_down : ℕ → ℕ → ℕ → Mem → Mem
move_down d s zero mem = mem
move_down d s (suc n) mem = move_down d s n (store mem (d + n) (mem (s + n)))

pub memmove : ℕ → ℕ → ℕ → Mem → Mem
memmove d s n mem =
    if n == 0
    then mem
    else if ltb s d && ltb d (s + n)
    then move_down d s n mem
    else move_up d s n mem

memcpy : ℕ → ℕ → ℕ → Mem → Mem
memcpy dst src n mem = memmove dst src n mem

unfoldable pub strncmp : ℕ → ℕ → ℕ → Mem → ℤ
strncmp p q zero mem = pos 0
strncmp p q (suc n) mem =
    let rest = strncmp (p + 1) (q + 1) n mem in
    if not (mem p == 0) && mem p == mem q then rest else sub_ℕ (mem p) (mem q)

-- while (n-- > 0) *s++ = 0;
pub pad : ℕ → ℕ → Mem → Mem
pad s zero mem = mem
pad s (suc n) mem = pad (s + 1) n (store mem s 0)

pub strncpy : ℕ → ℕ → ℕ → Mem → Mem
strncpy s t zero mem = mem
strncpy s t (suc n) mem =
    let mem' = store mem s (mem t) in
    let rest = strncpy (s + 1) (t + 1) n mem' in if mem t == 0 then pad (s + 1) n mem' else rest

-- while (--n > 0 && (*s++ = *t++) != 0); *s = 0; -- the number is what `--n` gives first.
pub safestrcpy_from : ℕ → ℕ → ℕ → Mem → Mem
safestrcpy_from s t zero mem = store mem s 0
safestrcpy_from s t (suc n) mem =
    let mem' = store mem s (mem t) in
    let rest = safestrcpy_from (s + 1) (t + 1) n mem' in
    if mem t == 0 then store mem' (s + 1) 0 else rest

pub safestrcpy : ℕ → ℕ → ℕ → Mem → Mem
safestrcpy s t zero mem = mem
safestrcpy s t (suc n) mem = safestrcpy_from s t n mem

-- for (n = 0; s[n]; n++); with fuel
pub strlen_from : ℕ → ℕ → ℕ → Mem → Outcome ℕ
strlen_from zero s n mem = no_fuel
strlen_from (suc f) s n mem =
    let rest = strlen_from f s (n + 1) mem in if mem (s + n) == 0 then ok n else rest

pub strlen : ℕ → ℕ → Mem → Outcome ℕ
strlen fuel s mem = strlen_from fuel s 0 mem
