-- ===== src/Pipe/Transfer.antt =====
-- pipewrite and piperead of kernel/pipe.c move bytes through the pipe in order.
use mathlib.Core.List.{append_assoc, append-nil}
use os_spring.Prelude.{
  ℕ, zero, suc, ◌+◌, ◌%◌, ◌<◌, ◌≡◌, ◌≢◌, ◌⊎◌, inl, inr, refl, sym, subst, ap, ◌∙◌, List, [], ◌∷◌,
  ◌++◌, Bool, true, false, not, ◌||◌, Option, none, some, arith, length, get_or, ◌==◌, Bool-cases,
  Option-cases,
}
use os_spring.Pipe.{
  Pipe, pipesize, uint, put, Ended, returns, fails, sleeps, pipewrite_from, piperead_from,
}
use os_spring.Pipe.Contents.{
  IsValid, count, contents, contents-put, put-IsValid, taken, contents-taken, taken-IsValid,
  is_full,
}

-- The bytes are those of the user's memory from an address on.
abbrev FromUser : (ℕ → Option ℕ) → ℕ → List ℕ → Type 0
FromUser copyin a [] = Unit {0}
FromUser copyin a (ch ∷ out) = (copyin a ≡ some ch) × FromUser copyin (a + 1) out

-- Why a call of pipewrite for k more bytes from byte i on ended as it did, having put m bytes.
abbrev WriteEnd : (ℕ → Option ℕ) → Bool → ℕ → ℕ → ℕ → ℕ → Pipe → Ended → Type 0
WriteEnd copyin killed addr k i m q (returns r) =
    (r ≡ i + m) × ((m ≡ k) ⊎ (copyin (addr + r) ≡ none))
WriteEnd copyin killed addr k i m q (sleeps r) = (r ≡ i + m) × (count q ≡ pipesize)
WriteEnd copyin killed addr k i m q fails = (q.readopen ≡ false) ⊎ (killed ≡ true)

abbrev pub Writes : (ℕ → Option ℕ) → Bool → ℕ → ℕ → ℕ → Pipe → Ended × Pipe → Type 0
Writes copyin killed addr k i p (r, q) =
    (out : List ℕ) × FromUser copyin (addr + i) out
    × (contents q ≡ contents p ++ out)
    × WriteEnd copyin killed addr k i (length out) q r
    × IsValid q

room : (p : Pipe) → IsValid p → p.nwrite ≢ uint (p.nread + pipesize) → count p < pipesize
room p v h = omega (arith, v.fits, λ (e : count p ≡ pipesize). h ((is_full p v).1 e))

module _ (copyin : ℕ → Option ℕ) (killed : Bool) (addr : ℕ) where
  stops :
      (k i : ℕ) (p : Pipe) (r : Ended)
      → IsValid p
      → WriteEnd copyin killed addr k i 0 p r
      → Writes copyin killed addr k i p (r, p)
  stops k i p r v w = ([], tt, sym (append-nil (contents p)), w, v)

  goes_on :
      (k i ch : ℕ) (p : Pipe) (r : Ended × Pipe)
      → IsValid p
      → count p < pipesize
      → copyin (addr + i) ≡ some ch
      → Writes copyin killed addr k (i + 1) (put ch p) r
      → Writes copyin killed addr (suc k) i p r
  goes_on k i ch p (r, q) v h e (out, from, eq, end, v') = (
    ch ∷ out,
    (e, subst (λ a. FromUser copyin a out) (omega arith) from),
    eq ∙ ap (λ xs. xs ++ out) (contents-put p v ch h) ∙ append_assoc (contents p) (ch ∷ []) out,
    later r end,
    v',
  )
    where
      later :
          (r : Ended)
          → WriteEnd copyin killed addr k (i + 1) (length out) q r
          → WriteEnd copyin killed addr (suc k) i (suc (length out)) q r
      later (returns m) (a, inl b) = (omega arith, inl (omega arith))
      later (returns m) (a, inr b) = (omega arith, inr b)
      later (sleeps m) (a, b) = (omega arith, b)
      later fails b = b

  -- The three ways of a turn of the loop that puts no byte, and the one that does.
  turn_fails :
      (k i : ℕ) (p : Pipe)
      → (not p.readopen || killed) ≡ true
      → pipewrite_from copyin killed (suc k) addr i p ≡ (fails, p)
  unfolding pipewrite_from
  turn_fails k i p e = rw e

  turn_sleeps :
      (k i : ℕ) (p : Pipe)
      → (not p.readopen || killed) ≡ false
      → (p.nwrite == uint (p.nread + pipesize)) ≡ true
      → pipewrite_from copyin killed (suc k) addr i p ≡ (sleeps i, p)
  unfolding pipewrite_from
  turn_sleeps k i p e f = rw (e, f)

  turn_returns :
      (k i : ℕ) (p : Pipe)
      → (not p.readopen || killed) ≡ false
      → (p.nwrite == uint (p.nread + pipesize)) ≡ false
      → copyin (addr + i) ≡ none
      → pipewrite_from copyin killed (suc k) addr i p ≡ (returns i, p)
  unfolding pipewrite_from
  turn_returns k i p e f c = rw (e, f, c)

  turn_puts :
      (k i ch : ℕ) (p : Pipe)
      → (not p.readopen || killed) ≡ false
      → (p.nwrite == uint (p.nread + pipesize)) ≡ false
      → copyin (addr + i) ≡ some ch
      → pipewrite_from copyin killed (suc k) addr i p
        ≡ pipewrite_from copyin killed k addr (i + 1) (put ch p)
  unfolding pipewrite_from
  turn_puts k i ch p e f c = rw (e, f, c)

  -- From a valid pipe, pipewrite puts some of the user's bytes, in order, behind what the pipe
  -- holds, and keeps it valid. It returns the count when all are put or copyin has failed at the
  -- next one; it sleeps only with the pipe full; it fails only without readers or when killed.
  pub pipewrite_from-Writes :
      (k i : ℕ) (p : Pipe)
      → IsValid p
      → Writes copyin killed addr k i p (pipewrite_from copyin killed k addr i p)
  unfolding pipewrite_from
  pipewrite_from-Writes zero i p v = stops zero i p (returns i) v (omega arith, inl refl)
  pipewrite_from-Writes (suc k) i p v = elim (Bool-cases (not p.readopen || killed)) [
    | inl e ↦
        subst (Writes copyin killed addr (suc k) i p) (sym (turn_fails k i p e))
          (stops (suc k) i p fails v (ground (arith, e)))
    | inr e ↦ elim (Bool-cases (p.nwrite == uint (p.nread + pipesize))) [
      | inl f ↦
          subst (Writes copyin killed addr (suc k) i p) (sym (turn_sleeps k i p e f))
            (stops (suc k) i p (sleeps i) v (omega arith, (is_full p v).0 (ground (arith, f))))
      | inr f ↦ elim (Option-cases (copyin (addr + i))) [
        | inl c ↦
            subst (Writes copyin killed addr (suc k) i p) (sym (turn_returns k i p e f c))
              (stops (suc k) i p (returns i) v (omega arith, inr c))
        | inr (ch, c) ↦
            subst (Writes copyin killed addr (suc k) i p) (sym (turn_puts k i ch p e f c)) (
              goes_on k i ch p (pipewrite_from copyin killed k addr (i + 1) (put ch p)) v
                (room p v (ground (arith, f))) c
                (pipewrite_from-Writes k (i + 1) (put ch p)
                  (put-IsValid p v ch (room p v (ground (arith, f))))))
      ]
    ]
  ]

-- What the loop of piperead takes out of the pipe: the bytes that it copies out, in order, and at
-- most one more, which is lost, if copyout fails at the next address.
abbrev pub Reads : (ℕ → Bool) → ℕ → ℕ → ℕ → Pipe → ℕ × List ℕ × Pipe → Type 0
Reads copyout addr k i p (r, out, q) =
    (lost : List ℕ) × (contents p ≡ out ++ lost ++ contents q)
    × (r ≡ i + length out)
    × ((length out ≡ k) × (lost ≡ [])
        ⊎ (contents q ≡ []) × (lost ≡ [])
        ⊎ (copyout (addr + r) ≡ false) × (length lost ≡ 1))
    × IsValid q

module _ (copyout : ℕ → Bool) (addr : ℕ) where
  -- The empty pipe, a byte delivered, and a byte lost.
  Reads-none :
      (k i : ℕ) (p : Pipe)
      → IsValid p
      → (p.nread == p.nwrite) ≡ true
      → Reads copyout addr k i p (i, [], p)
  Reads-none k i p v e = ([], refl, omega arith, inr (inl (empty, refl)), v)
    where
      none_left : count p ≡ 0
      none_left = ground (arith, e, v.read_in, v.write_in)

      empty : contents p ≡ []
      empty = rw none_left

  Reads-lost :
      (k i : ℕ) (p : Pipe)
      → IsValid p
      → p.nread ≢ p.nwrite
      → copyout (addr + i) ≡ false
      → Reads copyout addr k i p (i, [], record p { nread = uint (p.nread + 1) })
  Reads-lost k i p v ne c = (
    get_or p.bytes (p.nread % pipesize) 0 ∷ [],
    contents-taken p v ne,
    omega arith,
    inr (inr (c, refl)),
    taken-IsValid p v ne,
  )

  Reads-more :
      (k i : ℕ) (p : Pipe) (t : ℕ × List ℕ × Pipe) (v : IsValid p)
      → p.nread ≢ p.nwrite
      → Reads copyout addr k (i + 1) (taken p v) t
      → Reads copyout addr (suc k) i p (t.0, get_or p.bytes (p.nread % pipesize) 0 ∷ t.1, t.2)
  Reads-more k i p (r, out, q) v ne (lost, eq, count, why, valid) = (
    lost,
    contents-taken p v ne ∙ ap (λ xs. get_or p.bytes (p.nread % pipesize) 0 ∷ xs) eq,
    omega arith,
    later why,
    valid,
  )
    where
      later :
          ((length out ≡ k) × (lost ≡ [])
            ⊎ (contents q ≡ []) × (lost ≡ [])
            ⊎ (copyout (addr + r) ≡ false) × (length lost ≡ 1))
          → (suc (length out) ≡ suc k) × (lost ≡ [])
            ⊎ (contents q ≡ []) × (lost ≡ [])
            ⊎ (copyout (addr + r) ≡ false) × (length lost ≡ 1)
      later (inl (a, b)) = inl (omega arith, b)
      later (inr w) = inr w

  -- piperead's loop takes bytes out of a valid pipe in the order in which they went in, delivers
  -- them all but for one at which copyout failed, and stops early only on an empty pipe or there.
  pub piperead_from-Reads :
      (k i : ℕ) (p : Pipe) → IsValid p → Reads copyout addr k i p (piperead_from copyout k addr i p)
  unfolding piperead_from
  piperead_from-Reads zero i p v = ([], refl, omega arith, inl (refl, refl), v)
  piperead_from-Reads (suc k) i p v = elim (Bool-cases (p.nread == p.nwrite)) [
    | inl e ↦ rw e (Reads-none (suc k) i p v e)
    | inr e ↦
        let ne : p.nread ≢ p.nwrite = ground (arith, e) in
        elim (Bool-cases (copyout (addr + i))) [
          | inl c ↦
              rw (e, c)
                (Reads-more k i p (piperead_from copyout k addr (i + 1) (taken p v)) v ne
                  (piperead_from-Reads k (i + 1) (taken p v) (taken-IsValid p v ne)))
          | inr c ↦ rw (e, c) (Reads-lost (suc k) i p v ne c)
        ]
  ]
