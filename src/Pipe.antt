-- ===== src/Pipe.antt =====
-- kernel/pipe.c: a pipe as a ring of PIPESIZE bytes with free-running uint counters. The callee
-- copyin gives the byte at a user address, or fails; copyout says whether an address takes a byte.
-- A call runs under the pipe's lock up to its end or to the next call of sleep.
pub mod Contents
pub mod Transfer
mod Tests
use os_spring.Prelude.{
  ℕ, zero, suc, ◌+◌, ◌-◌, ◌*◌, ◌/◌, ◌%◌, ◌^◌, ◌≤◌, ◌<◌, ◌≡◌, ◌≢◌, ◌⊎◌, ◌↔◌, inl, inr, refl, sym,
  subst, ap, ◌∙◌, fun_ext, List, [], ◌∷◌, ◌++◌, map, Bool, true, false, not, ◌&&◌, ◌||◌, Option,
  none, some, some-injective, arith, All, All-map, length, get_elem?, get_or, set, take, drop,
  replicate, length-append, length-set, get_or-set_self, get_elem?-set_self, get_elem?-set_ne,
  get_or-set_ne, ℤ, pos, negsuc, sub_ℕ, sub_ℕ-eq_zero, ltb, leb, ◌==◌, ==_iff, Bool-cases,
  Option-cases, if◌then◌else◌, Outcome, ok, panic, fault, no_fuel, ◌>>=◌,
}

abbrev pub pipesize : ℕ
pipesize = 512

-- uint arithmetic
abbrev pub uint : ℕ → ℕ
uint n = n % 2 ^ 32

pub record Pipe : Type 0 where
  pub bytes : List ℕ
  pub nread : ℕ
  pub nwrite : ℕ
  pub readopen : Bool
  pub writeopen : Bool

-- What pipealloc sets up in a fresh page, whose bytes are arbitrary.
pub pipe_init : List ℕ → Pipe
pipe_init page = record { bytes = page; nread = 0; nwrite = 0; readopen = true; writeopen = true }

-- pi->data[pi->nwrite++ % PIPESIZE] = ch
pub put : ℕ → Pipe → Pipe
put ch p = record p { bytes = set p.bytes (p.nwrite % pipesize) ch; nwrite = uint (p.nwrite + 1) }

-- How a call ends: with a count, with -1, or asleep with a count done so far.
pub data Ended : Type 0 where
  returns : ℕ → Ended
  fails : Ended
  sleeps : ℕ → Ended

-- The loop of pipewrite from byte `i` on; the first argument is n - i.
pub pipewrite_from : (ℕ → Option ℕ) → Bool → ℕ → ℕ → ℕ → Pipe → Ended × Pipe
pipewrite_from copyin killed zero addr i p = (returns i, p)
pipewrite_from copyin killed (suc k) addr i p =
    let next = λ (ch : ℕ). pipewrite_from copyin killed k addr (i + 1) (put ch p) in
    if not p.readopen || killed
    then (fails, p)
    else if p.nwrite == uint (p.nread + pipesize)
    then (sleeps i, p)
    else elim (copyin (addr + i)) [ none ↦ (returns i, p) | some ch ↦ next ch ]

-- pipewrite, and its going on after a sleep at byte `i`
pub pipewrite : (ℕ → Option ℕ) → Bool → ℕ → ℕ → ℕ → Pipe → Ended × Pipe
pipewrite copyin killed addr i n p = pipewrite_from copyin killed (n - i) addr i p

-- The loop of piperead from byte `i` on: the count, the bytes copied out and the pipe.
pub piperead_from : (ℕ → Bool) → ℕ → ℕ → ℕ → Pipe → ℕ × List ℕ × Pipe
piperead_from copyout zero addr i p = (i, [], p)
piperead_from copyout (suc k) addr i p =
    let ch = get_or p.bytes (p.nread % pipesize) 0 in
    let p' = record p { nread = uint (p.nread + 1) } in
    let (r, out, q) = piperead_from copyout k addr (i + 1) p' in
    if p.nread == p.nwrite
    then (i, [], p)
    else if copyout (addr + i)
    then (r, ch ∷ out, q)
    else (i, [], p')

pub piperead : (ℕ → Bool) → Bool → ℕ → ℕ → Pipe → Ended × List ℕ × Pipe
piperead copyout killed addr n p =
    let (r, out, q) = piperead_from copyout n addr 0 p in
    if p.nread == p.nwrite && p.writeopen
    then (if killed then (fails, [], p) else (sleeps 0, [], p))
    else (returns r, out, q)

-- pipeclose of the writing or the reading end; whether the pipe's page is freed.
pipeclose : Bool → Pipe → Bool × Pipe
pipeclose writable p =
    let p' = if writable then record p { writeopen = false } else record p { readopen = false } in
    (not p'.readopen && not p'.writeopen, p')
