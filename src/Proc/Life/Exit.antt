-- ===== src/Proc/Life/Exit.antt =====
-- exit and reparent of kernel/proc.c: what becomes of the children and of the parent.
use native.Mathlib.Decide.{ℕ_discrete}
use os_spring.Prelude.{
  ℕ, zero, suc, ◌+◌, ◌%◌, ◌^◌, ◌<◌, ◌≡◌, ◌≢◌, ◌⊎◌, inl, inr, refl, sym, subst, ap, ◌∙◌, List, [],
  ◌∷◌, Bool, true, false, ◌&&◌, Option, none, some, arith, length, get_elem?, set, replicate,
  get_elem?-set_self, get_elem?-set_ne, ltb, leb, Bool-cases, Option-cases, if◌then◌else◌, ok,
}
use os_spring.Proc.{Proc, Table, Chan, at_proc, sleeping, runnable, zombie, parent_is, wakeup}
use os_spring.Proc.Sleep.{woken, wakeup_lem}
use os_spring.Proc.Life.{
  Services, Kernel, reparent, reparent_from, wake_all, parent_chan, close_files, exit,
}

-- `q` is `p`, but that it may have been woken.
abbrev MaybeWoken : Proc → Proc → Type 0
MaybeWoken p q = (q ≡ p) ⊎ ((p.state ≡ sleeping) × (q ≡ record p { state = runnable }))

abbrev pub adopt : ℕ → ℕ → Proc → Proc
adopt me init p = if parent_is p.parent me then record p { parent = some init } else p

-- The entry of index `j` after a step that may wake it.
abbrev pub Becomes : Table → ℕ → Proc → Type 0
Becomes t j p = (q : Proc) × (get_elem? t j ≡ some q) × MaybeWoken p q

wakeup-Becomes :
    (t : Table) (me : Option ℕ) (c : Chan) (j : ℕ) (p : Proc)
    → get_elem? t j ≡ some p
    → Becomes (wakeup me c t) j p
wakeup-Becomes t me c j p e = (woken me c j p, wakeup_lem t me c j p e, ground arith)

MaybeWoken-trans : (p q r : Proc) → MaybeWoken p q → MaybeWoken q r → MaybeWoken p r
MaybeWoken-trans p q r h h' = ground arith

MaybeWoken-adopt :
    (me init : ℕ) (p q : Proc) → MaybeWoken p q → MaybeWoken (adopt me init p) (adopt me init q)
MaybeWoken-adopt me init p q (inl e) = inl (ap (adopt me init) e)
MaybeWoken-adopt me init p q (inr (a, e)) = ground arith

MaybeWoken-chain :
    (me init : ℕ) (p q r : Proc) (b b' : Bool)
    → b ≡ b'
    → MaybeWoken p q
    → MaybeWoken (if b' then adopt me init q else q) r
    → MaybeWoken (if b then adopt me init p else p) r
MaybeWoken-chain me init p q r true true e w w' =
    MaybeWoken-trans (adopt me init p) (adopt me init q) r (MaybeWoken-adopt me init p q w) w'
MaybeWoken-chain me init p q r false false e w w' = MaybeWoken-trans p q r w w'
MaybeWoken-chain me init p q r true false e w w' = cc e
MaybeWoken-chain me init p q r false true e w w' = cc e

MaybeWoken-kin : (p q : Proc) → MaybeWoken p q → (q.pid ≡ p.pid) × (q.parent ≡ p.parent)
MaybeWoken-kin p q w = ground arith

pid-adopt : (me init : ℕ) (p : Proc) → (adopt me init p).pid ≡ p.pid
pid-adopt me init p = ground arith

-- A sleeper that may have been woken is runnable, or sleeps on.
ready :
    (me init : ℕ) (w q r : Proc) {par : ℕ}
    → w.state ≡ sleeping
    → w.chan ≡ at_proc par
    → MaybeWoken w q
    → MaybeWoken (adopt me init q) r
    → (r.state ≡ runnable) ⊎ ((r.state ≡ sleeping) × (r.chan ≡ at_proc par))
ready me init w q r a b h h' = ground arith

lt_of_get : (t : Table) (j : ℕ) (p : Proc) → get_elem? t j ≡ some p → j < length t
lt_of_get [] j p e = absurd (cc e)
lt_of_get (x ∷ t) zero p e = omega arith
lt_of_get (x ∷ t) (suc j) p e = omega (arith, lt_of_get t j p e)

module _ (me init : ℕ) where
  -- One round of the loop.
  adopted : ℕ → Table → Table
  adopted i t = elim (get_elem? t i) [
    | none ↦ t
    | some pp ↦
        if parent_is pp.parent me
        then wakeup (some me) (at_proc init) (set t i (record pp { parent = some init }))
        else t
  ]

  adopted_here :
      (i : ℕ) (t : Table) (p : Proc)
      → get_elem? t i ≡ some p
      → Becomes (adopted i t) i (adopt me init p)
  unfolding adopted
  adopted_here i t p e = elim (Bool-cases (parent_is p.parent me)) [
    | inl child ↦
        rw (e, adopted, child)
          (wakeup-Becomes (set t i (record p { parent = some init })) (some me) (at_proc init) i
            (record p { parent = some init }) (get_elem?-set_self t i p _ e))
    | inr other ↦ rw (e, adopted, other) (p, e, inl refl)
  ]

  adopted_ne :
      (i j : ℕ) (t : Table) (p : Proc) → i ≢ j → get_elem? t j ≡ some p → Becomes (adopted i t) j p
  unfolding adopted
  adopted_ne i j t p ne e = elim (Option-cases (get_elem? t i)) [
    | inl out ↦ rw (out, adopted) (p, e, inl refl)
    | inr (pp, at_i) ↦ elim (Bool-cases (parent_is pp.parent me)) [
      | inl child ↦
          rw (at_i, adopted, child)
            (wakeup-Becomes (set t i (record pp { parent = some init })) (some me) (at_proc init) j
              p (get_elem?-set_ne t i j _ ne ∙ e))
      | inr other ↦ rw (at_i, adopted, other) (p, e, inl refl)
    ]
  ]

  -- Each entry that the loop reaches is adopted if it is a child, and may be woken.
  reparent_from-Becomes :
      (k i j : ℕ) (t : Table) (p : Proc)
      → get_elem? t j ≡ some p
      → Becomes
          (reparent_from k i me init t)
          j
          (if leb i j && ltb j (i + k) then adopt me init p else p)
  unfolding reparent_from adopted
  reparent_from-Becomes zero i j t p e = (p, e, inl (ground arith))
  reparent_from-Becomes (suc k) i j t p e = elim (ℕ_discrete i j) [
    | yes same ↦
        let (q, at, w) =
          subst (λ n. Becomes (adopted i t) n (adopt me init p)) same
            (adopted_here i t p (ap (get_elem? t) same ∙ e)) in
        let (r, at', w') = reparent_from-Becomes k (i + 1) j (adopted i t) q at in
        (r, at', ground (arith, MaybeWoken-trans (adopt me init p) q r w))
    | no ne ↦
        let (q, at, w) = adopted_ne i j t p ne e in
        let (r, at', w') = reparent_from-Becomes k (i + 1) j (adopted i t) q at in
        (
          r,
          at',
          MaybeWoken-chain me init p q r (leb i j && ltb j (i + suc k))
              (leb (i + 1) j && ltb j (i + 1 + k)) (ground arith) w w',
        )
  ]

  -- reparent gives every child of the process to init, and changes nothing else but that it may
  -- wake processes.
  reparent-Becomes :
      (t : Table) (j : ℕ) (p : Proc)
      → get_elem? t j ≡ some p
      → Becomes (reparent me init t) j (adopt me init p)
  unfolding reparent
  reparent-Becomes t j p e =
      let (q, at, w) = reparent_from-Becomes (length t) 0 j t p e in
      (q, at, ground (arith, lt_of_get t j p e))

  wake_all-Becomes :
      (cs : List Chan) (t : Table) (j : ℕ) (p : Proc)
      → get_elem? t j ≡ some p
      → Becomes (wake_all me cs t) j p
  wake_all-Becomes [] t j p e = (p, e, inl refl)
  wake_all-Becomes (c ∷ cs) t j p e =
      let (q, at, w) = wakeup-Becomes t (some me) c j p e in
      let (r, at', w') = wake_all-Becomes cs (wakeup (some me) c t) j q at in
      (r, at', MaybeWoken-trans p q r w w')

  -- The table of exit after its wakeups.
  abbrev exit_table : List Chan → List Chan → Option ℕ → Table → Table
  exit_table cs cs' parent t =
      wakeup (some me) (parent_chan parent) (reparent me init (wake_all me cs' (wake_all me cs t)))

  wake_all_twice :
      (cs cs' : List Chan) (t : Table) (j : ℕ) (p : Proc)
      → get_elem? t j ≡ some p
      → Becomes (wake_all me cs' (wake_all me cs t)) j p
  wake_all_twice cs cs' t j p e =
      let (q, at, w) = wake_all-Becomes cs t j p e in
      let (r, at', w') = wake_all-Becomes cs' (wake_all me cs t) j q at in
      (r, at', MaybeWoken-trans p q r w w')

  exit_table-Becomes :
      (cs cs' : List Chan) (parent : Option ℕ) (t : Table) (j : ℕ) (p : Proc)
      → get_elem? t j ≡ some p
      → Becomes (exit_table cs cs' parent t) j (adopt me init p)
  exit_table-Becomes cs cs' parent t j p e =
      let t₀ = wake_all me cs' (wake_all me cs t) in
      let (q, at, w) = wake_all_twice cs cs' t j p e in
      let (r, at', w') = reparent-Becomes t₀ j q at in
      let (s, at'', w'') =
        wakeup-Becomes (reparent me init t₀) (some me) (parent_chan parent) j r at' in
      (
        s,
        at'',
        MaybeWoken-trans (adopt me init p) r s (MaybeWoken-chain me init p q r true true refl w w')
            w'',
      )

module _ (S : Services) (init me : ℕ) (p : Proc) (status : ℕ) (k : Kernel S) where
  -- exit of a process that is not init leaves it a ZOMBIE with its status, its pid and its parent;
  -- every child of it belongs to init, and no other process has changed but that some may have
  -- been woken.
  pub exit-Becomes :
      me ≢ init
      → get_elem? k.table me ≡ some p
      → (k' : Kernel S) × (exit S init me p status k ≡ ok k')
        × ((q : Proc) × (get_elem? k'.table me ≡ some q)
            × (q.state ≡ zombie)
            × (q.xstate ≡ status)
            × (q.pid ≡ p.pid)
            × (q.parent ≡ (adopt me init p).parent))
        × ((j : ℕ) (c : Proc)
            → j ≢ me
            → get_elem? k.table j ≡ some c
            → Becomes k'.table j (adopt me init c))
  unfolding exit
  exit-Becomes ne e =
      let cs = (close_files S p.ofile k.rest).0 in
      let cs' = (S.iput p.cwd (close_files S p.ofile k.rest).1).0 in
      let (q, at, w) = exit_table-Becomes me init cs cs' p.parent k.table me p e in
      let gone : Proc = record q {
        ofile = replicate (length p.ofile) 0;
        cwd = 0;
        termination_time = k.ticks % 2 ^ 32;
        xstate = status;
        state = zombie;
      } in
      (
        record k {
          table = set (exit_table me init cs cs' p.parent k.table) me gone;
          rest = (S.iput p.cwd (close_files S p.ofile k.rest).1).1;
        },
        ground (arith, at),
        (
          gone,
          get_elem?-set_self (exit_table me init cs cs' p.parent k.table) me q gone at,
          refl,
          refl,
          (MaybeWoken-kin (adopt me init p) q w).0 ∙ pid-adopt me init p,
          (MaybeWoken-kin (adopt me init p) q w).1,
        ),
        λ j c nj ec.
            let (r, at', w') = exit_table-Becomes me init cs cs' p.parent k.table j c ec in
            (
              r,
              get_elem?-set_ne (exit_table me init cs cs' p.parent k.table) me j gone
                    (λ e'. nj (sym e'))
                  ∙ at',
              w',
            ),
      )

  -- The parent of a process that exits does not miss it: if it sleeps in wait, it is runnable
  -- after the exit.
  exit_wakes_parent :
      (par : ℕ) (w : Proc) (k' : Kernel S)
      → exit S init me p status k ≡ ok k'
      → p.parent ≡ some par
      → par ≢ me
      → get_elem? k.table par ≡ some w
      → w.state ≡ sleeping
      → w.chan ≡ at_proc par
      → (q : Proc) × (get_elem? k'.table par ≡ some q) × (q.state ≡ runnable)
  unfolding exit
  exit_wakes_parent par w k' e ep ne at asleep on = elim (Option-cases (get_elem? t₂ me)) [
    | inl z ↦ absurd (ground (arith, e, z))
    | inr (q, z) ↦
        let gone : Proc = record q {
          ofile = replicate (length p.ofile) 0;
          cwd = 0;
          termination_time = k.ticks % 2 ^ 32;
          xstate = status;
          state = zombie;
        } in
        let table : k'.table ≡ set t₂ me gone = ground (arith, e, z) in
        (
          woken (some me) (parent_chan p.parent) par r,
          ap (λ (t : Table). get_elem? t par) table
              ∙ get_elem?-set_ne t₂ me par gone (λ e'. ne (sym e'))
              ∙ wakeup_lem t₁ (some me) (parent_chan p.parent) par r at₁,
          ground (arith, still, ne, ep),
        )
  ]
    where
      cs : List Chan
      cs = (close_files S p.ofile k.rest).0

      cs' : List Chan
      cs' = (S.iput p.cwd (close_files S p.ofile k.rest).1).0

      t₀ : Table
      t₀ = wake_all me cs' (wake_all me cs k.table)

      t₁ : Table
      t₁ = reparent me init t₀

      t₂ : Table
      t₂ = exit_table me init cs cs' p.parent k.table

      q₀ : Becomes t₀ par w
      q₀ = wake_all_twice me init cs cs' k.table par w at

      r₀ : Becomes t₁ par (adopt me init q₀.0)
      r₀ = reparent-Becomes me init t₀ par q₀.0 q₀.1

      r : Proc
      r = r₀.0

      at₁ : get_elem? t₁ par ≡ some r
      at₁ = r₀.1

      still : (r.state ≡ runnable) ⊎ ((r.state ≡ sleeping) × (r.chan ≡ at_proc par))
      still = ready me init w q₀.0 r asleep on q₀.2 r₀.2
