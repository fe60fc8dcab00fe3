-- ===== src/Proc/Sched/Pick.antt =====
-- fcfs of kernel/proc.c: which of the runnable first-come processes it picks. Starting ticks are
-- compared as the ints they are.
use native.Mathlib.Decide.{dec_lt}
use os_spring.Prelude.{
  ℕ, suc, ◌+◌, ◌-◌, ◌^◌, ◌≤◌, ◌<◌, ◌≡◌, inl, inr, refl, sym, subst, ap, ◌∙◌, [], ◌∷◌, Bool, true,
  false, ◌&&◌, Option, none, some, arith, get_elem?, ltb, Bool-cases,
}
use os_spring.Proc.{Proc, Table}
use os_spring.Proc.Sched.{is_candidate, int_key, consider, fcfs_from, fcfs_pick}

-- The process at an index, if it is a runnable first-come process.
abbrev pub CandidateAt : Table → ℕ → ℕ → Type 0
CandidateAt t i tick =
    (p : Proc) × (get_elem? t i ≡ some p) × (is_candidate p ≡ true) × (p.starting_tick ≡ tick)

-- Of the candidates below index `i`, the choice has the lowest tick as an int, and among these the lowest
-- index; there is no choice if there is no candidate.
abbrev Best : Table → ℕ → Option (ℕ × ℕ) → Type 0
Best t i none = (j u : ℕ) → j < i → ¬ CandidateAt t j u
Best t i (some (b, tick)) =
    (b < i)
    × CandidateAt t b tick
    × ((j u : ℕ)
        → j < i
        → CandidateAt t j u
        → (int_key tick ≤ int_key u) × (int_key u ≡ int_key tick → b ≤ j))

and_left : (a b : Bool) → (a && b) ≡ true → a ≡ true
and_left true b e = refl
and_left false b e = e

and_right : (a b : Bool) → (a && b) ≡ true → b ≡ true
and_right true b e = e
and_right false b e = cc

ltb_lt : (a b : ℕ) → ltb a b ≡ true → a < b
ltb_lt a b e = ground arith

not_lower : (c : Bool) (a b : ℕ) → c ≡ true → (c && ltb a b) ≡ false → b ≤ a
not_lower c a b e e' = ground arith

module _ (t : Table) (i : ℕ) (p : Proc) (here : get_elem? t i ≡ some p) where
  -- A candidate at index `i` is p.
  candidate : (u : ℕ) → CandidateAt t i u → (is_candidate p ≡ true) × (p.starting_tick ≡ u)
  candidate u c = (ground (arith, c.1, c.2), ground (arith, c.1, c.3))

  consider-Best : (min : Option (ℕ × ℕ)) → Best t i min → Best t (i + 1) (consider i p min)
  unfolding consider
  consider-Best none h = elim (Bool-cases (is_candidate p)) [
    | inl e ↦ rw e (
      omega arith,
      (p, here, e, refl),
      λ j u hj c. elim (dec_lt j i) [
        | yes lt ↦ absurd (h j u lt c)
        | no ge ↦
            let same : j ≡ i = omega arith in
            ground (arith, candidate u (subst (λ x. CandidateAt t x u) same c))
      ],
    )
    | inr e ↦ rw e (λ j u hj c. elim (dec_lt j i) [
      | yes lt ↦ h j u lt c
      | no ge ↦
          let same : j ≡ i = omega arith in
          cc (e, (candidate u (subst (λ x. CandidateAt t x u) same c)).0)
    ])
  ]
  consider-Best (some (b, tick)) h =
      elim (Bool-cases (is_candidate p && ltb (int_key p.starting_tick) (int_key tick))) [
        | inl e ↦ rw e (
          omega arith,
          (
            p,
            here,
            and_left (is_candidate p) (ltb (int_key p.starting_tick) (int_key tick)) e,
            refl,
          ),
          λ j u hj c. elim (dec_lt j i) [
            | yes lt ↦
                let lower : int_key p.starting_tick < int_key tick =
                  ltb_lt (int_key p.starting_tick) (int_key tick)
                    (and_right (is_candidate p) (ltb (int_key p.starting_tick) (int_key tick)) e) in
                (omega (arith, (h.2 j u lt c).0), λ e'. absurd (omega (arith, (h.2 j u lt c).0)))
            | no ge ↦
                let same : j ≡ i = omega arith in
                let c' = candidate u (subst (λ x. CandidateAt t x u) same c) in
                (omega (arith, ap int_key c'.1), λ e'. omega arith)
          ],
        )
        | inr e ↦ rw e (
          omega (arith, h.0),
          h.1,
          λ j u hj c. elim (dec_lt j i) [
            | yes lt ↦ h.2 j u lt c
            | no ge ↦
                let same : j ≡ i = omega arith in
                let c' = candidate u (subst (λ x. CandidateAt t x u) same c) in
                (
                  omega (
                    arith,
                    ap int_key c'.1,
                    not_lower (is_candidate p) (int_key p.starting_tick) (int_key tick) c'.0 e,
                  ),
                  λ e'. omega (arith, h.0),
                )
          ],
        )
      ]

fcfs_from-Best :
    (t : Table) (i : ℕ) (min : Option (ℕ × ℕ)) (ps : Table)
    → ((j : ℕ) → get_elem? ps j ≡ get_elem? t (i + j))
    → Best t i min
    → (n : ℕ) × Best t n (fcfs_from i min ps) × ((j : ℕ) → n ≤ j → get_elem? t j ≡ none)
unfolding fcfs_from
fcfs_from-Best t i min [] same h =
    (i, h, λ j hj. ap (get_elem? t) (omega arith) ∙ sym (same (j - i)))
fcfs_from-Best t i min (p ∷ ps) same h =
    fcfs_from-Best t (i + 1) (consider i p min) ps
      (λ j. same (suc j) ∙ ap (get_elem? t) (omega arith))
      (consider-Best t i p (sym (same 0 ∙ ap (get_elem? t) (omega arith))) min h)

-- What fcfs may pick: a runnable first-come process such that none has a lower starting tick,
-- as an int, nor the same tick and a lower index; and nothing only if there is no such process.
abbrev pub Picks : Table → Option ℕ → Type 0
Picks t none = (j u : ℕ) → ¬ CandidateAt t j u
Picks t (some b) =
    (tick : ℕ) × CandidateAt t b tick
    × ((j u : ℕ)
        → CandidateAt t j u
        → (int_key tick ≤ int_key u) × (int_key u ≡ int_key tick → b ≤ j))

-- fcfs picks, of the runnable processes under the first-come policy, the one with the lowest
-- starting tick, compared as signed 32-bit ints, the first of these in the table if there are several,
-- and picks none only if there is none.
pub fcfs_pick-Picks : (t : Table) → Picks t (fcfs_pick t)
unfolding fcfs_pick
fcfs_pick-Picks t = go (fcfs_from 0 none t) refl
  where
    all : (n : ℕ) × Best t n (fcfs_from 0 none t) × ((j : ℕ) → n ≤ j → get_elem? t j ≡ none)
    all =
        fcfs_from-Best t 0 none t (λ j. ap (get_elem? t) (omega arith))
          (λ j u h. absurd (omega arith))

    within : (j u : ℕ) → CandidateAt t j u → j < all.0
    within j u c = elim (dec_lt j all.0) [ yes lt ↦ lt | no ge ↦ cc (c.1, all.2 j (omega arith)) ]

    go : (r : Option (ℕ × ℕ)) → fcfs_from 0 none t ≡ r → Picks t (fcfs_pick t)
    go none e = rw (e, fcfs_pick) (λ j u c. (subst (Best t all.0) e all.1) j u (within j u c) c)
    go (some (b, tick)) e =
        let best : Best t all.0 (some (b, tick)) = subst (Best t all.0) e all.1 in
        rw (e, fcfs_pick) (tick, best.1, λ j u c. best.2 j u (within j u c) c)

-- While no runnable first-come process has started at tick 2 ^ 31 or later, fcfs picks the one that
-- started earliest.
fcfs_pick-earliest :
    (t : Table) (b : ℕ)
    → fcfs_pick t ≡ some b
    → ((j u : ℕ) → CandidateAt t j u → u < 2 ^ 31)
    → (tick : ℕ) × CandidateAt t b tick × ((j u : ℕ) → CandidateAt t j u → tick ≤ u)
fcfs_pick-earliest t b e early =
    let (tick, at, low) = subst (Picks t) e (fcfs_pick-Picks t) in
    (tick, at, λ j u c. omega (arith, early b tick at, early j u c, (low j u c).0))
