-- ===== src/Ulib.antt =====
-- user/ulib.c: the user library's string routines, on the memory of Cstring; atoi and gets on lists of
-- bytes. A byte is a number below 256, since char is unsigned on RISC-V.
pub mod Atoi
pub mod Move
mod Tests
use os_spring.Prelude.{
  ℕ, zero, suc, ◌+◌, ◌-◌, ◌*◌, ◌/◌, ◌%◌, ◌^◌, ◌≤◌, ◌<◌, ◌≡◌, ◌≢◌, ◌⊎◌, ◌↔◌, inl, inr, refl, sym,
  subst, ap, ◌∙◌, fun_ext, List, [], ◌∷◌, ◌++◌, map, Bool, true, false, not, ◌&&◌, ◌||◌, Option,
  none, some, some-injective, arith, All, All-map, length, get_elem?, get_or, set, take, drop,
  replicate, length-append, length-set, get_or-set_self, get_elem?-set_self, get_elem?-set_ne,
  get_or-set_ne, ℤ, pos, negsuc, sub_ℕ, sub_ℕ-eq_zero, ltb, leb, ◌==◌, ==_iff, Bool-cases,
  Option-cases, if◌then◌else◌, Outcome, ok, panic, fault, no_fuel, ◌>>=◌,
}
use os_spring.Cstring.{Mem, store, memset_from, move_up, move_down}

-- while ((*s++ = *t++) != 0); with fuel for the length of the string
strcpy : ℕ → ℕ → ℕ → Mem → Outcome Mem
strcpy zero s t mem = no_fuel
strcpy (suc k) s t mem =
    let mem' = store mem s (mem t) in
    let rest = strcpy k (s + 1) (t + 1) mem' in if mem t == 0 then ok mem' else rest

strcmp : ℕ → ℕ → ℕ → Mem → Outcome ℤ
strcmp zero p q mem = no_fuel
strcmp (suc k) p q mem =
    let rest = strcmp k (p + 1) (q + 1) mem in
    if not (mem p == 0) && mem p == mem q then rest else ok (sub_ℕ (mem p) (mem q))

-- The loop of strlen from s[n] on.
strlen : ℕ → ℕ → ℕ → Mem → Outcome ℕ
strlen zero s n mem = no_fuel
strlen (suc k) s n mem =
    let rest = strlen k s (n + 1) mem in if mem (s + n) == 0 then ok n else rest

memset : ℕ → ℕ → ℕ → Mem → Mem
memset dst c n mem = memset_from n dst (c % 256) mem

-- The address, or none for 0.
strchr : ℕ → ℕ → ℕ → Mem → Outcome (Option ℕ)
strchr zero s c mem = no_fuel
strchr (suc k) s c mem =
    let rest = strchr k (s + 1) c mem in
    if mem s == 0 then ok none else if mem s == c then ok (some s) else rest

-- The loop of gets: `input` is what read(0, &c, 1) gives byte after byte until it answers less than 1,
-- the first argument is the room left, max - 1 - i. What is stored before the 0, and the input left.
gets_from : ℕ → List ℕ → List ℕ × List ℕ
gets_from zero input = ([], input)
gets_from (suc room) [] = ([], [])
gets_from (suc room) (c ∷ input) =
    let (got, left) = gets_from room input in
    if c == 10 || c == 13 then (c ∷ [], input) else (c ∷ got, left)

-- A buffer of size 0 gets a 0 byte all the same, at buf[0].
gets : ℕ → List ℕ → List ℕ × List ℕ
unfolding gets_from
gets max input = gets_from (max - 1) input

abbrev pub is_digit : ℕ → Bool
is_digit c = leb 48 c && leb c 57

-- The loop of atoi; `n` is the int's 32 bits.
pub atoi_from : ℕ → List ℕ → ℕ
atoi_from n [] = n
atoi_from n (c ∷ s) =
    let rest = atoi_from ((n * 10 + c - 48) % 2 ^ 32) s in if is_digit c then rest else n

pub atoi : List ℕ → ℕ
atoi s = atoi_from 0 s

pub memmove : ℕ → ℕ → ℕ → Mem → Mem
memmove dst src n mem = if ltb dst src then move_up dst src n mem else move_down dst src n mem

memcmp : ℕ → ℕ → ℕ → Mem → ℤ
memcmp s1 s2 zero mem = pos 0
memcmp s1 s2 (suc n) mem =
    let rest = memcmp (s1 + 1) (s2 + 1) n mem in
    if mem s1 == mem s2 then rest else sub_ℕ (mem s1) (mem s2)

memcpy : ℕ → ℕ → ℕ → Mem → Mem
unfolding memmove
memcpy dst src n mem = memmove dst src n mem
