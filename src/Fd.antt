-- ===== src/Fd.antt =====
-- kernel/sysfile.c: file descriptors. The open files of a process are a list, by descriptor, of indices of
-- the table of File, or none for a null pointer. The answer is the int that the system call returns.
pub mod Counts
pub mod Pipes
mod Tests
use os_spring.Prelude.{
  ℕ, zero, suc, ◌+◌, ◌-◌, ◌*◌, ◌/◌, ◌%◌, ◌^◌, ◌≤◌, ◌<◌, ◌≡◌, ◌≢◌, ◌⊎◌, ◌↔◌, inl, inr, refl, sym,
  subst, ap, ◌∙◌, fun_ext, List, [], ◌∷◌, ◌++◌, map, Bool, true, false, not, ◌&&◌, ◌||◌, Option,
  none, some, some-injective, arith, All, All-map, length, get_elem?, get_or, set, take, drop,
  replicate, length-append, length-set, get_or-set_self, get_elem?-set_self, get_elem?-set_ne,
  get_or-set_ne, ℤ, pos, negsuc, sub_ℕ, sub_ℕ-eq_zero, ltb, leb, ◌==◌, ==_iff, Bool-cases,
  Option-cases, if◌then◌else◌, Outcome, ok, panic, fault, no_fuel, ◌>>=◌,
}
use os_spring.File.{File, Closing, filedup, fileclose}

-- NOFILE of kernel/param.h
abbrev pub nofile : ℕ
nofile = 16

abbrev pub Ofile : Type 0
Ofile = List (Option ℕ)

-- p->ofile[fd]
abbrev pub open_file : Ofile → ℕ → Option ℕ
open_file ofile fd = get_or ofile fd none

-- The descriptor and its file, or none for -1.
pub argfd : ℤ → Ofile → Option (ℕ × ℕ)
argfd (negsuc n) ofile = none
argfd (pos fd) ofile =
    if leb nofile fd
    then none
    else elim (open_file ofile fd) [ none ↦ none | some f ↦ some (fd, f) ]

-- The loop of fdalloc: the first descriptor that is free, or none for -1.
pub fdalloc : ℕ → Ofile → Option ℕ × Ofile
fdalloc f [] = (none, [])
fdalloc f (none ∷ ofile) = (some 0, some f ∷ ofile)
fdalloc f (some g ∷ ofile) =
    let (fd, ofile') = fdalloc f ofile in
    (elim fd [ none ↦ none | some i ↦ some (suc i) ], some g ∷ ofile')

pub sys_dup : ℤ → Ofile → List File → Outcome (ℤ × Ofile × List File)
unfolding argfd
sys_dup fd ofile files = elim (argfd fd ofile) [
  | none ↦ ok (negsuc 0, ofile, files)
  | some (_, f) ↦
      let found = fdalloc f ofile in
      elim found.0 [
        | none ↦ ok (negsuc 0, found.1, files)
        | some new ↦ filedup f files >>= λ files'. ok (pos new, found.1, files')
      ]
]

-- What fileclose goes on to do is answered too.
pub sys_close : ℤ → Ofile → List File → Outcome (ℤ × Closing × Ofile × List File)
unfolding argfd
sys_close fd ofile files = elim (argfd fd ofile) [
  | none ↦ ok (negsuc 0, Closing.still_open, ofile, files)
  | some (n, f) ↦ fileclose f files >>= λ (todo, files'). ok (pos 0, todo, set ofile n none, files')
]
