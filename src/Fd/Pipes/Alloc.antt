-- ===== src/Fd/Pipes/Alloc.antt =====
-- pipealloc of kernel/pipe.c against the references of the files.
use native.Mathlib.Decide.{ℕ_discrete}
use os_spring.Prelude.{
  ℕ, ◌≡◌, ◌≢◌, ◌⊎◌, inl, inr, refl, sym, subst, ap, ◌∙◌, List, [], ◌∷◌, Bool, true, false, not,
  ◌||◌, Option, none, some, arith, get_elem?, set, get_elem?-set_self, get_elem?-set_ne, ◌==◌,
  if◌then◌else◌, Outcome, ok,
}
use os_spring.Fd.Pipes.{
  pipe_end, write_file, close_both, with_files, with_second, with_first, pipealloc,
}
use os_spring.File.{File, fd_pipe, Closing, filealloc, fileclose}
use os_spring.File.Refs.{filealloc_lem, fileclose_lem}

-- The references of an entry of the table; none outside it.
abbrev pub refs : List File → ℕ → ℕ
refs t k = elim (get_elem? t k) [ none ↦ 0 | some f ↦ f.ref ]

ref_of : (t : List File) (i : ℕ) (f : File) → get_elem? t i ≡ some f → refs t i ≡ f.ref
ref_of t i f e = rw (refs, e) refl

refs-set :
    (t : List File) (i : ℕ) (f g : File)
    → get_elem? t i ≡ some f
    → (k : ℕ) → refs (set t i g) k ≡ (if i == k then g.ref else refs t k)
refs-set t i f g e k = elim (ℕ_discrete i k) [
  | yes same ↦
      ap (λ x. refs (set t i g) x) (sym same)
      ∙ rw (refs, get_elem?-set_self t i f g e) (ground (arith, same))
  | no ne ↦ rw (refs, get_elem?-set_ne t i k g ne) (ground (arith, ne))
]

-- `t'` has `n` references to entry `i`, as many as `t` to every other entry.
abbrev WithRefs : ℕ → ℕ → List File → List File → Type 0
WithRefs i n t t' = (k : ℕ) → refs t' k ≡ (if i == k then n else refs t k)

filealloc-WithRefs :
    (t : List File)
    → ((i : ℕ) × (f : File) × (t' : List File) × (filealloc t ≡ (some i, t'))
        × (get_elem? t' i ≡ some f)
        × (t' ≡ set t i f)
        × (refs t i ≡ 0)
        × WithRefs i 1 t t')
      ⊎ (filealloc t ≡ (none, t))
filealloc-WithRefs t = elim (filealloc_lem t) [
  | inr (e, _) ↦ inr e
  | inl (i, f, e, at, z) ↦
      let f' = record f { ref = 1 } in
      inl (
        i,
        f',
        set t i f',
        e,
        get_elem?-set_self t i f f' at,
        refl,
        rw (refs, at) z,
        refs-set t i f f' at,
      )
]

fileclose-WithRefs :
    (t : List File) (i : ℕ)
    → refs t i ≡ 1
    → (todo : Closing) × (t' : List File) × (fileclose i t ≡ ok (todo, t')) × WithRefs i 0 t t'
fileclose-WithRefs t i one = go (get_elem? t i) refl
  where
    go :
        (r : Option File)
        → get_elem? t i ≡ r
        → (todo : Closing) × (t' : List File) × (fileclose i t ≡ ok (todo, t')) × WithRefs i 0 t t'
    go none at = absurd (ground (arith, one, at))
    go (some f) at =
        let (todo, f', closed, count, _, _) = fileclose_lem t i f at (ground (arith, one, at)) in
        (todo, set t i f', closed, λ k. refs-set t i f f' at k ∙ ground (arith, count, one, at))

pub close_both-WithRefs :
    (t : List File) (i j : ℕ)
    → i ≢ j
    → refs t i ≡ 1
    → refs t j ≡ 1
    → (cs : List Closing) × (t' : List File) × (close_both i j t ≡ ok (cs, t'))
      × ((k : ℕ) → refs t' k ≡ (if i == k || j == k then 0 else refs t k))
unfolding close_both
close_both-WithRefs t i j ne one one' =
    let (c, t₁, e, w) = fileclose-WithRefs t i one in
    let (c', t₂, e', w') = fileclose-WithRefs t₁ j (w j ∙ ground (arith, ne, one')) in
    (c ∷ c' ∷ [], t₂, rw (e, e') refl, λ k. w' k ∙ ground (arith, w k))

abbrev pub SameRefs : List File → List File → Type 0
SameRefs t t' = (k : ℕ) → refs t' k ≡ refs t k

abbrev IsEnd : ℕ → Bool → File → Type 0
IsEnd pi writable f =
    (f.type ≡ fd_pipe) × (f.readable ≡ not writable) × (f.writable ≡ writable) × (f.pipe ≡ pi)

-- Two entries that had no reference are the reading and the writing end of the pipe `pi`.
pub record Ends (pi i j : ℕ) (t t' : List File) : Type 0 where
  pub apart : i ≢ j
  pub unused : (refs t i ≡ 0) × (refs t j ≡ 0)
  pub counts : (k : ℕ) → refs t' k ≡ (if i == k || j == k then 1 else refs t k)
  pub reading : (f : File) × (get_elem? t' i ≡ some f) × IsEnd pi false f
  pub writing : (f : File) × (get_elem? t' j ≡ some f) × IsEnd pi true f

-- What pipealloc may end with, from the table `t`.
abbrev Piped : Option ℕ → List File → Outcome (Option (ℕ × ℕ) × List Closing × List File) → Type 0
Piped page t r =
    ((cs : List Closing) × (t' : List File) × (r ≡ ok (none, cs, t')) × SameRefs t t')
    ⊎ ((i j pi : ℕ) × (t' : List File) × (page ≡ some pi)
        × (r ≡ ok (some (i, j), [], t'))
        × Ends pi i j t t')

write_file_at :
    (i : ℕ) (change : File → File) (t : List File) (f : File)
    → get_elem? t i ≡ some f
    → write_file i change t ≡ ok (set t i (change f))
write_file_at i change t f e = rw (write_file, e) refl

-- pipealloc with two files in hand, which had no reference in `t`
with_files-Piped :
    (page : Option ℕ) (i j : ℕ) (f g : File) (t t₂ : List File)
    → i ≢ j
    → (get_elem? t₂ i ≡ some f) × (get_elem? t₂ j ≡ some g)
    → (refs t i ≡ 0) × (refs t j ≡ 0)
    → ((k : ℕ) → refs t₂ k ≡ (if i == k || j == k then 1 else refs t k))
    → Piped page t (with_files page i j t₂)
unfolding with_files
with_files-Piped none i j f g t t₂ ne at free counts =
    let (cs, t₃, e, w) =
      close_both-WithRefs t₂ i j ne (counts i ∙ ground arith) (counts j ∙ ground arith) in
    inl (cs, t₃, rw e refl, λ k. w k ∙ ground (arith, counts k, free))
with_files-Piped (some pi) i j f g t t₂ ne at free counts =
    let f' = pipe_end pi false f in
    let g' = pipe_end pi true g in
    let t₃ = set t₂ i f' in
    let one_f : f.ref ≡ 1 = sym (ref_of t₂ i f at.0) ∙ counts i ∙ ground arith in
    let one_g : g.ref ≡ 1 = sym (ref_of t₂ j g at.1) ∙ counts j ∙ ground arith in
    let at' : get_elem? t₃ j ≡ some g = get_elem?-set_ne t₂ i j f' ne ∙ at.1 in
    inr (
      i,
      j,
      pi,
      set t₃ j g',
      refl,
      rw
          (
            with_files,
            write_file_at i (pipe_end pi false) t₂ f at.0,
            write_file_at j (pipe_end pi true) t₃ g at',
          )
          refl,
      record {
        apart = ne;
        unused = free;
        counts = λ k.
            refs-set t₃ j g g' at' k
            ∙ ground (arith, refs-set t₂ i f f' at.0 k, one_f, one_g, counts k);
        reading = (
          f',
          get_elem?-set_ne t₃ j i g' (λ e. ne (sym e)) ∙ get_elem?-set_self t₂ i f f' at.0,
          (refl, refl, refl, refl),
        );
        writing = (g', get_elem?-set_self t₃ j g g' at', (refl, refl, refl, refl));
      },
    )

pub pipealloc-Piped : (page : Option ℕ) (t : List File) → Piped page t (pipealloc page t)
unfolding pipealloc with_first with_second
pipealloc-Piped page t = elim (filealloc-WithRefs t) [
  | inr e ↦ inl ([], t, ap (with_first page) e, λ k. refl)
  | inl (i, f, t₁, e, at, _, free, w) ↦ elim (filealloc-WithRefs t₁) [
    | inr e' ↦
        let (c, t₂, closed, w') = fileclose-WithRefs t₁ i (w i ∙ ground arith) in
        inl (
          c ∷ [],
          t₂,
          ap (with_first page) e ∙ ap (with_second page i) e' ∙ rw closed refl,
          λ k. w' k ∙ ground (arith, w k, free),
        )
    | inl (j, g, t₂, e', at', written, free', w') ↦
        let ne : i ≢ j = λ same. ground (arith, w j, free', same) in
        subst (Piped page t) (sym (ap (with_first page) e ∙ ap (with_second page i) e')) (
          with_files-Piped page i j f g t t₂ ne
            (
              ap (λ u. get_elem? u i) written
                  ∙ get_elem?-set_ne t₁ j i g (λ same. ne (sym same))
                  ∙ at,
              at',
            )
            (free, sym (w j ∙ ground (arith, ne)) ∙ free') (λ k. w' k ∙ ground (arith, w k)))
  ]
]
