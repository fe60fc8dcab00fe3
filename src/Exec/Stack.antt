-- ===== src/Exec/Stack.antt =====
-- kernel/exec.c: the arguments on the new stack.
use os_spring.Prelude.{
  ℕ, ◌+◌, ◌-◌, ◌*◌, ◌/◌, ◌%◌, ◌^◌, List, [], ◌∷◌, ◌++◌, ◌&&◌, Option, none, some, length, ltb, leb,
  if◌then◌else◌, Outcome, ok, ◌>>=◌,
}
use os_spring.Cstring.{Mem, strlen}
use os_spring.Vm.{Pages, Vm, pgsize}
use os_spring.Vm.Copy.{copyout}

-- sp -= n in uint64, and sp -= sp % 16
abbrev sub64 : ℕ → ℕ → ℕ
sub64 a b = (a + 2 ^ 64 - b) % 2 ^ 64

abbrev align_sp : ℕ → ℕ
align_sp sp = sub64 sp (sp % 16)

-- ustack[], 8 bytes each, the low one first, at `at`
put_words : ℕ → List ℕ → Mem → Mem
put_words at [] mem a = mem a
put_words at (x ∷ xs) mem a =
    let rest = put_words (at + 8) xs mem a in
    if leb at a && ltb a (at + 8) then x / 256 ^ (a - at) % 256 else rest

module _ (P : Pages) (pagetable stackbase ustack_at : ℕ) where
  -- The loop over argv: sp and ustack so far, or none for `bad`. A string that fetchstr fetched ends
  -- within a page.
  push_strings : List ℕ → ℕ → List ℕ → Vm P → Outcome (Option (ℕ × List ℕ) × Vm P)
  push_strings [] sp ustack s = ok (some (sp, ustack), s)
  push_strings (arg ∷ argv) sp ustack s = strlen pgsize arg s.mem >>= λ n.
      let sp' = align_sp (sub64 sp (n + 1)) in
      let next = λ (s' : Vm P). push_strings argv sp' (ustack ++ sp' ∷ []) s' in
      if leb 32 (length ustack)
      then ok (none, s)
      else if ltb sp' stackbase
      then ok (none, s)
      else copyout P pagetable sp' arg (n + 1) s >>= λ (done, mem).
          let s' = record s { mem = mem } in if done then next s' else ok (none, s')

  -- The arguments and the array of their addresses: argc and sp, or none for `bad`.
  pub push_args : List ℕ → ℕ → Vm P → Outcome (Option (ℕ × ℕ) × Vm P)
  unfolding push_strings put_words
  push_args argv sp s = push_strings argv sp [] s >>= λ (pushed, s₁). elim pushed [
    | none ↦ ok (none, s₁)
    | some (sp₁, ustack) ↦
        let argc = length ustack in
        let sp₂ = align_sp (sub64 sp₁ ((argc + 1) * 8)) in
        let s₂ = record s₁ { mem = put_words ustack_at (ustack ++ 0 ∷ []) s₁.mem } in
        if ltb sp₂ stackbase
        then ok (none, s₁)
        else copyout P pagetable sp₂ ustack_at ((argc + 1) * 8) s₂ >>= λ (done, mem).
            ok (if done then some (argc, sp₂) else none, record s₂ { mem = mem })
  ]
