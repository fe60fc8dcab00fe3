-- ===== src/Proc/Life/Wait.antt =====
-- wait of kernel/proc.c: a zombie child is reaped.
use os_spring.Prelude.{
  ℕ, zero, suc, ◌≡◌, ◌≢◌, inl, inr, refl, sym, subst, [], ◌∷◌, Bool, true, ◌&&◌, some,
  some-injective, get_elem?, get_elem?-set_self, get_elem?-set_ne, Bool-cases,
}
use os_spring.Proc.{Proc, Table, zombie, state_eq, parent_is}
use os_spring.Proc.Life.{Services, Kernel, cleared, find_zombie, reaped, freeproc, wait_turn}

abbrev is_zombie_of : ℕ → Proc → Bool
is_zombie_of me p = parent_is p.parent me && state_eq p.state zombie

-- The entry of index `i` is a zombie child of the process `me`.
abbrev ZombieAt : ℕ → Table → ℕ → Proc → Type 0
ZombieAt me t i p =
    (get_elem? t i ≡ some p) × ((parent_is p.parent me && state_eq p.state zombie) ≡ true)

find_zombie_lem :
    (me : ℕ) (t : Table) (j : ℕ) (c : Proc)
    → ZombieAt me t j c
    → (i : ℕ) × (p : Proc) × (find_zombie me t ≡ some (i, p)) × ZombieAt me t i p
unfolding find_zombie
find_zombie_lem me [] j c (e, z) = cc e
find_zombie_lem me (p ∷ ps) zero c (e, z) =
    let here = subst (λ q. is_zombie_of me q ≡ true) (sym (some-injective p c e)) z in
    (0, p, rw here, (refl, here))
find_zombie_lem me (p ∷ ps) (suc j) c (e, z) = elim (Bool-cases (is_zombie_of me p)) [
  | inl here ↦ (0, p, rw here, (refl, here))
  | inr there ↦
      let (i, q, found, at) = find_zombie_lem me ps j c (e, z) in (suc i, q, rw (there, found), at)
]

-- With a zombie child and room for its status, a turn of wait reaps such a child: it answers the
-- child's pid, clears the child's entry and changes no other; it does not sleep.
wait_turn-reaps :
    (S : Services) (me : ℕ) (p : Proc) (k : Kernel S) (j : ℕ) (c : Proc)
    → ZombieAt me k.table j c
    → (i : ℕ) × (pp : Proc) × (k' : Kernel S) × ZombieAt me k.table i pp
      × (wait_turn S me p true k ≡ (reaped pp.pid, k'))
      × (get_elem? k'.table i ≡ some (cleared pp))
      × ((l : ℕ) → i ≢ l → get_elem? k'.table l ≡ get_elem? k.table l)
unfolding wait_turn freeproc
wait_turn-reaps S me p k j c z =
    let (i, pp, found, z') = find_zombie_lem me k.table j c z in
    (
      i,
      pp,
      freeproc S i pp k,
      z',
      rw (found, wait_turn),
      get_elem?-set_self k.table i pp (cleared pp) z'.0,
      λ l ne. get_elem?-set_ne k.table i l (cleared pp) ne,
    )
