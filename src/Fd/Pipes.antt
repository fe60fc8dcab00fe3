-- ===== src/Fd/Pipes.antt =====
-- sys_pipe of kernel/sysfile.c and pipealloc of kernel/pipe.c, on the descriptors and the table of files.
pub mod Alloc
pub mod Undo
use os_spring.Prelude.{
  ℕ, zero, suc, ◌+◌, ◌-◌, ◌*◌, ◌/◌, ◌%◌, ◌^◌, ◌≤◌, ◌<◌, ◌≡◌, ◌≢◌, ◌⊎◌, ◌↔◌, inl, inr, refl, sym,
  subst, ap, ◌∙◌, fun_ext, List, [], ◌∷◌, ◌++◌, map, Bool, true, false, not, ◌&&◌, ◌||◌, Option,
  none, some, some-injective, arith, All, All-map, length, get_elem?, get_or, set, take, drop,
  replicate, length-append, length-set, get_or-set_self, get_elem?-set_self, get_elem?-set_ne,
  get_or-set_ne, ℤ, pos, negsuc, sub_ℕ, sub_ℕ-eq_zero, ltb, leb, ◌==◌, ==_iff, Bool-cases,
  Option-cases, if◌then◌else◌, Outcome, ok, panic, fault, no_fuel, ◌>>=◌,
}
use os_spring.Fd.{Ofile, fdalloc}
use os_spring.File.{File, FileType, fd_pipe, Closing, filealloc, fileclose}

-- What pipealloc writes to the end of a pipe.
abbrev pub pipe_end : ℕ → Bool → File → File
pipe_end pi writable f = record f {
  type = fd_pipe;
  readable = not writable;
  writable = writable;
  pipe = pi;
}

-- A file of the table written.
abbrev pub write_file : ℕ → (File → File) → List File → Outcome (List File)
write_file i change t = elim (get_elem? t i) [ none ↦ fault | some f ↦ ok (set t i (change f)) ]

-- fileclose of both files, with what it goes on to do.
pub close_both : ℕ → ℕ → List File → Outcome (List Closing × List File)
close_both i j t =
    fileclose i t >>= λ (c, t'). fileclose j t' >>= λ (c', t''). ok (c ∷ c' ∷ [], t'')

-- What pipealloc has taken when it fails is closed, and what fileclose goes on to do is answered too.
-- pipealloc from its kalloc on, whose answer is the first argument; `i` and `j` are the two files.
pub with_files : Option ℕ → ℕ → ℕ → List File → Outcome (Option (ℕ × ℕ) × List Closing × List File)
unfolding close_both
with_files none i j t = close_both i j t >>= λ (cs, t'). ok (none, cs, t')
with_files (some pi) i j t = write_file i (pipe_end pi false) t >>= λ t₁.
    write_file j (pipe_end pi true) t₁ >>= λ t₂. ok (some (i, j), [], t₂)

-- pipealloc from the answer of its second filealloc on, and from that of the first
pub with_second :
    Option ℕ → ℕ → Option ℕ × List File → Outcome (Option (ℕ × ℕ) × List Closing × List File)
unfolding with_files
with_second page i (none, t) = fileclose i t >>= λ (c, t'). ok (none, c ∷ [], t')
with_second page i (some j, t) = with_files page i j t

pub with_first :
    Option ℕ → Option ℕ × List File → Outcome (Option (ℕ × ℕ) × List Closing × List File)
unfolding with_second
with_first page (none, t) = ok (none, [], t)
with_first page (some i, t) = with_second page i (filealloc t)

-- The files of the ends, or none for -1.
pub pipealloc : Option ℕ → List File → Outcome (Option (ℕ × ℕ) × List Closing × List File)
unfolding with_first
pipealloc page t = with_first page (filealloc t)

-- sys_pipe for the files `rf` and `wf`; `copied` is whether the two descriptors could be copied to the user.
module _ (copied : ℕ → ℕ → Bool) (rf wf : ℕ) (t : List File) where
  -- -1, with the descriptors `ofile`
  pub give_up : Ofile → Outcome (ℤ × List Closing × Ofile × List File)
  unfolding close_both
  give_up ofile = close_both rf wf t >>= λ (cs, t'). ok (negsuc 0, cs, ofile, t')

  pub second_fd : ℕ → Option ℕ × Ofile → Outcome (ℤ × List Closing × Ofile × List File)
  unfolding give_up
  second_fd fd₀ (none, ofile) = give_up (set ofile fd₀ none)
  second_fd fd₀ (some fd₁, ofile) =
      if copied fd₀ fd₁
      then ok (pos 0, [], ofile, t)
      else give_up (set (set ofile fd₀ none) fd₁ none)

  pub first_fd : Option ℕ × Ofile → Outcome (ℤ × List Closing × Ofile × List File)
  unfolding second_fd give_up
  first_fd (none, ofile) = give_up ofile
  first_fd (some fd₀, ofile) = second_fd fd₀ (fdalloc wf ofile)

pub sys_pipe :
    (ℕ → ℕ → Bool) → Option ℕ → Ofile → List File → Outcome (ℤ × List Closing × Ofile × List File)
unfolding pipealloc first_fd
sys_pipe copied page ofile t = pipealloc page t >>= λ (ends, cs, t'). elim ends [
  | none ↦ ok (negsuc 0, cs, ofile, t')
  | some (rf, wf) ↦ first_fd copied rf wf t' (fdalloc rf ofile)
]
