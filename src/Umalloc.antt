-- ===== src/Umalloc.antt =====
-- user/umalloc.c: malloc and free of the user library. An address counts units of sizeof(Header), and 0 is
-- the null pointer; the fields of the headers are functions of the address. sbrk is a parameter on the
-- rest `W` of the state.
pub mod Fit
pub mod Place
mod Tests
use os_spring.Prelude.{
  ℕ, zero, suc, ◌+◌, ◌-◌, ◌*◌, ◌/◌, ◌%◌, ◌^◌, ◌≤◌, ◌<◌, ◌≡◌, ◌≢◌, ◌⊎◌, ◌↔◌, inl, inr, refl, sym,
  subst, ap, ◌∙◌, fun_ext, List, [], ◌∷◌, ◌++◌, map, Bool, true, false, not, ◌&&◌, ◌||◌, Option,
  none, some, some-injective, arith, All, All-map, length, get_elem?, get_or, set, take, drop,
  replicate, length-append, length-set, get_or-set_self, get_elem?-set_self, get_elem?-set_ne,
  get_or-set_ne, ℤ, pos, negsuc, sub_ℕ, sub_ℕ-eq_zero, ltb, leb, ◌==◌, ==_iff, Bool-cases,
  Option-cases, if◌then◌else◌, Outcome, ok, panic, fault, no_fuel, ◌>>=◌,
}

pub record Heap (W : Type 0) : Type 0 where
  pub ptr : ℕ → ℕ
  pub size : ℕ → ℕ
  pub freep : ℕ
  pub world : W

abbrev pub store : (ℕ → ℕ) → ℕ → ℕ → ℕ → ℕ
store f i v j = if i == j then v else f j

abbrev pub nunits : ℕ → ℕ
nunits nbytes = (nbytes + 15) / 16 + 1

module _ (W : Type 0) (base : ℕ) (sbrk : ℕ → W → Option ℕ × W) where
  -- The loop of free from `p` on, with fuel: the block that `bp` comes after.
  pub find_place : ℕ → ℕ → ℕ → Heap W → Outcome ℕ
  find_place zero bp p h = no_fuel
  find_place (suc k) bp p h =
      let next = h.ptr p in
      let rest = find_place k bp next h in
      if ltb p bp && ltb bp next
      then ok p
      else if leb next p && (ltb p bp || ltb bp next)
      then ok p
      else rest

  -- The two joins of free, at the place `p`.
  abbrev join_next : ℕ → ℕ → Heap W → Heap W
  join_next bp p h =
      let next = h.ptr p in
      if bp + h.size bp == next
      then record h {
        size = store h.size bp (h.size bp + h.size next);
        ptr = store h.ptr bp (h.ptr next);
      }
      else record h { ptr = store h.ptr bp next }

  abbrev join_place : ℕ → ℕ → Heap W → Heap W
  join_place bp p h =
      if p + h.size p == bp
      then record h { size = store h.size p (h.size p + h.size bp); ptr = store h.ptr p (h.ptr bp) }
      else record h { ptr = store h.ptr p bp }

  -- free(ap), with fuel for the list.
  pub free : ℕ → ℕ → Heap W → Outcome (Heap W)
  unfolding find_place
  free fuel ap h =
      let bp = ap - 1 in
      find_place fuel bp h.freep h >>= λ p.
      ok (record (join_place bp p (join_next bp p h)) { freep = p })

  -- morecore; none is its 0.
  morecore : ℕ → ℕ → Heap W → Outcome (Option ℕ × Heap W)
  unfolding free
  morecore fuel nu h =
      let n = if ltb nu 4096 then 4096 else nu in
      let (p, w) = sbrk n h.world in
      elim p [
        | none ↦ ok (none, record h { world = w })
        | some hp ↦ free fuel (hp + 1) (record h { size = store h.size hp n; world = w }) >>= λ h'.
            ok (some h'.freep, h')
      ]

  -- The block `p` is taken, or its last `n` units.
  pub take_block : ℕ → ℕ → ℕ → Heap W → ℕ × Heap W
  take_block n prevp p h =
      let q = p + (h.size p - n) in
      if h.size p == n
      then (p + 1, record h { ptr = store h.ptr prevp (h.ptr p); freep = prevp })
      else (q + 1, record h { size = store (store h.size p (h.size p - n)) q n; freep = prevp })

  -- The loop of malloc from `p` on, with fuel; the answer 0 is none.
  pub malloc_from : ℕ → ℕ → ℕ → ℕ → Heap W → Outcome (Option ℕ × Heap W)
  unfolding take_block morecore
  malloc_from zero n prevp p h = no_fuel
  malloc_from (suc k) n prevp p h =
      let taken = take_block n prevp p h in
      let rest = malloc_from k n p (h.ptr p) h in
      if leb n (h.size p)
      then ok (some taken.0, taken.1)
      else if p == h.freep
      then (morecore (suc k) n h >>= λ (more, h'). elim more [
        | none ↦ ok (none, h')
        | some p' ↦ malloc_from k n p' (h'.ptr p') h'
      ])
      else rest

  pub malloc : ℕ → ℕ → Heap W → Outcome (Option ℕ × Heap W)
  unfolding malloc_from
  malloc fuel nbytes h =
      let h' =
        if h.freep == 0
        then record h { ptr = store h.ptr base base; size = store h.size base 0; freep = base }
        else h in
      malloc_from fuel (nunits nbytes) h'.freep (h'.ptr h'.freep) h'
