-- ===== src/Console/Read.antt =====
-- consoleread of kernel/console.c, up to its end or its next sleep. `takes` says whether an address takes
-- a byte (either_copyout). `n` is not negative; for a negative one the source answers 0, as for 0.
pub mod Take
use os_spring.Prelude.{
  ℕ, zero, suc, ◌+◌, ◌-◌, ◌*◌, ◌/◌, ◌%◌, ◌^◌, ◌≤◌, ◌<◌, ◌≡◌, ◌≢◌, ◌⊎◌, ◌↔◌, inl, inr, refl, sym,
  subst, ap, ◌∙◌, fun_ext, List, [], ◌∷◌, ◌++◌, map, Bool, true, false, not, ◌&&◌, ◌||◌, Option,
  none, some, some-injective, arith, All, All-map, length, get_elem?, get_or, set, take, drop,
  replicate, length-append, length-set, get_or-set_self, get_elem?-set_self, get_elem?-set_ne,
  get_or-set_ne, ℤ, pos, negsuc, sub_ℕ, sub_ℕ-eq_zero, ltb, leb, ◌==◌, ==_iff, Bool-cases,
  Option-cases, if◌then◌else◌, Outcome, ok, panic, fault, no_fuel, ◌>>=◌,
}
use os_spring.Console.{max_history, Console, input_buf, uint, minus, newline, ctrl_d}

-- How a turn ends: with a count, with -1, or asleep with the bytes that are still wanted.
pub data Read : Type 0 where
  returns : ℕ → Read
  fails : Read
  sleeps : ℕ → Read

-- The loop with `n` bytes wanted still, of `target`: how it ends, the bytes copied, and the console.
pub read_from : (ℕ → Bool) → Bool → ℕ → ℕ → ℕ → Console → Read × List ℕ × Console
read_from takes killed target zero dst c = (returns target, [], c)
read_from takes killed target (suc n) dst c =
    let ch = get_or c.buf (c.r % input_buf) 0 in
    let c' = record c { r = uint (c.r + 1) } in
    let rest = read_from takes killed target n (dst + 1) c' in
    if c.r == c.w
    then (if killed then (fails, [], c) else (sleeps (suc n), [], c))
    else if ch == ctrl_d
    then (
      returns (target - suc n),
      [],
      (if ltb (suc n) target then record c' { r = minus c'.r 1 } else c'),
    )
    else if not (takes dst)
    then (returns (target - suc n), [], c')
    else if ch == newline
    then (returns (target - n), ch ∷ [], c')
    else (rest.0, ch ∷ rest.1, rest.2)

pub consoleread : (ℕ → Bool) → Bool → ℕ → ℕ → Console → Read × List ℕ × Console
unfolding read_from
consoleread takes killed dst n c = read_from takes killed n n dst c

-- history: its answer, and the buffers of commands that it prints, each up to its 0.
history : ℤ → Console → ℕ × List (List ℕ)
history (negsuc id) c = (2, [])
history (pos id) c =
    if ltb (max_history - 1) id
    then (2, [])
    else if leb c.num_commands id
    then (1, [])
    else (0, take c.num_commands c.commands ++ get_or c.commands id [] ∷ [])
