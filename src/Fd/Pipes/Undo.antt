-- ===== src/Fd/Pipes/Undo.antt =====
-- sys_pipe of kernel/sysfile.c gives back all that it took when it fails.
use native.Mathlib.Decide.{ℕ_discrete}
use os_spring.Prelude.{
  ℕ, zero, suc, ◌<◌, ◌≡◌, ◌⊎◌, inl, inr, refl, sym, subst, ap, ◌∙◌, List, [], ◌∷◌, Bool, true,
  Option, none, some, arith, length, set, get_or-set_self, get_or-set_ne, ℤ, pos, negsuc,
  Bool-cases, Outcome, ok,
}
use os_spring.Fd.{Ofile, open_file, fdalloc}
use os_spring.Fd.Counts.{fdalloc_lem}
use os_spring.Fd.Pipes.{give_up, second_fd, first_fd, sys_pipe}
use os_spring.Fd.Pipes.Alloc.{close_both-WithRefs, Ends, SameRefs, pipealloc-Piped}
use os_spring.File.{File, Closing}

set_comm : (o : Ofile) (m n : ℕ) → set (set o m none) n none ≡ set (set o n none) m none
set_comm [] m n = refl
set_comm (x ∷ o) zero zero = refl
set_comm (x ∷ o) zero (suc n) = refl
set_comm (x ∷ o) (suc m) zero = refl
set_comm (x ∷ o) (suc m) (suc n) = ap (λ u. x ∷ u) (set_comm o m n)

-- A descriptor that is open once another was cleared is another, and was open.
kept :
    (o : Ofile) (n m f : ℕ)
    → n < length o
    → open_file (set o n none) m ≡ some f
    → open_file o m ≡ some f
kept o n m f h e = elim (ℕ_discrete n m) [
  | yes same ↦ cc (sym (get_or-set_self o n none none h) ∙ ap (open_file (set o n none)) same ∙ e)
  | no ne ↦ sym (get_or-set_ne o n m none none ne) ∙ e
]

module _ (copied : ℕ → ℕ → Bool) (page : Option ℕ) (ofile : Ofile) (t : List File) where
  -- How sys_pipe may end.
  pub Piping : Outcome (ℤ × List Closing × Ofile × List File) → Type 0
  Piping r =
      ((cs : List Closing) × (t' : List File) × (r ≡ ok (negsuc 0, cs, ofile, t')) × SameRefs t t')
      ⊎ ((fd₀ fd₁ i j pi : ℕ) × (ofile' : Ofile) × (t' : List File) × (page ≡ some pi)
          × (copied fd₀ fd₁ ≡ true)
          × (r ≡ ok (pos 0, [], ofile', t'))
          × Ends pi i j t t'
          × (open_file ofile' fd₀ ≡ some i)
          × (open_file ofile' fd₁ ≡ some j)
          × (set (set ofile' fd₀ none) fd₁ none ≡ ofile))

  give_up-Piping :
      (pi i j : ℕ) (t' : List File) (o : Ofile)
      → Ends pi i j t t'
      → o ≡ ofile
      → Piping (give_up copied i j t' o)
  unfolding give_up Piping
  give_up-Piping pi i j t' o ends same =
      let (cs, t'', closed, w) =
        close_both-WithRefs t' i j ends.apart (ends.counts i ∙ ground arith)
          (ends.counts j ∙ ground arith) in
      inl (cs, t'', rw (closed, same) refl, λ k. w k ∙ ground (arith, ends.counts k, ends.unused))

  first_fd-Piping :
      (pi i j : ℕ) (t' : List File)
      → page ≡ some pi
      → Ends pi i j t t'
      → Piping (first_fd copied i j t' (fdalloc i ofile))
  unfolding first_fd second_fd Piping
  first_fd-Piping pi i j t' paged ends = elim (fdalloc_lem i ofile) [
    | inl e ↦
        subst Piping (sym (ap (first_fd copied i j t') e))
          (give_up-Piping pi i j t' ofile ends refl)
    | inr (fd₀, o₁, e, got) ↦ elim (fdalloc_lem j o₁) [
      | inl e' ↦
          subst Piping (sym (ap (first_fd copied i j t') e ∙ ap (second_fd copied i j t' fd₀) e'))
            (give_up-Piping pi i j t' (set o₁ fd₀ none) ends got.restored)
      | inr (fd₁, o₂, e', got') ↦
          let back : set (set o₂ fd₀ none) fd₁ none ≡ ofile =
            set_comm o₂ fd₀ fd₁ ∙ ap (λ o. set o fd₀ none) got'.restored ∙ got.restored in
          subst Piping (sym (ap (first_fd copied i j t') e ∙ ap (second_fd copied i j t' fd₀) e'))
            (elim (Bool-cases (copied fd₀ fd₁)) [
              | inl done ↦ rw done (
                  inr (
                    fd₀,
                    fd₁,
                    i,
                    j,
                    pi,
                    o₂,
                    t',
                    paged,
                    done,
                    refl,
                    ends,
                    kept o₂ fd₁ fd₀ i (omega (arith, got'.within, got'.same_length))
                        (ap (λ o. open_file o fd₀) got'.restored ∙ got.at),
                    got'.at,
                    back,
                  ))
              | inr failed ↦
                  rw failed (give_up-Piping pi i j t' (set (set o₂ fd₀ none) fd₁ none) ends back)
            ])
    ]
  ]

  -- sys_pipe: it never panics. It answers 0 with two free descriptors open at the reading and the writing
  -- end of the pipe, each with one reference, or -1 with the descriptors and the references of every
  -- file as they were.
  pub sys_pipe-Piping : Piping (sys_pipe copied page ofile t)
  unfolding sys_pipe Piping
  sys_pipe-Piping = elim (pipealloc-Piped page t) [
    | inl (cs, t', e, same) ↦ inl (cs, t', rw e refl, same)
    | inr (i, j, pi, t', paged, e, ends) ↦ rw e (first_fd-Piping pi i j t' paged ends)
  ]
