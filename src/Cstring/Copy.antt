-- ===== src/Cstring/Copy.antt =====
-- strlen, strncpy and safestrcpy of kernel/string.c: lengths, bounds and termination.
use Prim.Native.Nat.{min}
use native.Mathlib.Decide.{ℕ_discrete}
use os_spring.Prelude.{
  ℕ, zero, suc, ◌+◌, ◌-◌, ◌≤◌, ◌<◌, ◌≡◌, ◌≢◌, ◌⊎◌, inl, refl, ap, ◌&&◌, arith, ltb, leb,
  if◌then◌else◌, ok,
}
use os_spring.Cstring.{Mem, store, pad, strncpy, safestrcpy, safestrcpy_from, strlen, strlen_from}

-- The string at s has its first 0 byte at offset k.
abbrev pub EndsAt : ℕ → ℕ → Mem → Type 0
EndsAt s k mem = (mem (s + k) ≡ 0) × ((j : ℕ) → j < k → mem (s + j) ≢ 0)

strlen_from_lem :
    (f s n k : ℕ) (mem : Mem) → n ≤ k → k < n + f → EndsAt s k mem → strlen_from f s n mem ≡ ok k
unfolding strlen_from
strlen_from_lem zero s n k mem h h' e = absurd (omega arith)
strlen_from_lem (suc f) s n k mem h h' e = elim (ℕ_discrete n k) [
  | yes same ↦ rw same (ground (arith, e.0))
  | no ne ↦
      ground (
        arith,
        e.1 n (omega arith),
        strlen_from_lem f s (n + 1) k mem (omega arith) (omega arith) e,
      )
]

-- strlen finds the first 0 byte of a string, given fuel for the bytes up to it.
strlen_lem : (fuel s k : ℕ) (mem : Mem) → k < fuel → EndsAt s k mem → strlen fuel s mem ≡ ok k
unfolding strlen
strlen_lem fuel s k mem h e = strlen_from_lem fuel s 0 k mem (omega arith) (omega arith) e

pad_lem :
    (n s : ℕ) (mem : Mem) (a : ℕ) → pad s n mem a ≡ (if leb s a && ltb a (s + n) then 0 else mem a)
unfolding pad
pad_lem zero s mem a = ground arith
pad_lem (suc n) s mem a = ground (arith, pad_lem n (s + 1) (store mem s 0) a)

-- The n bytes at s hold none of the string at t, which has its first 0 byte at offset k.
abbrev pub Apart : ℕ → ℕ → ℕ → ℕ → Type 0
Apart s t n k = (s + n ≤ t) ⊎ (t + k < s)

-- No byte outside the n bytes at s is written by strncpy.
strncpy_outside :
    (n s t : ℕ) (mem : Mem) (a : ℕ) → (a < s) ⊎ (s + n ≤ a) → strncpy s t n mem a ≡ mem a
unfolding strncpy
strncpy_outside zero s t mem a h = refl
strncpy_outside (suc n) s t mem a h = ground (
  arith,
  strncpy_outside n (s + 1) (t + 1) (store mem s (mem t)) a,
  pad_lem n (s + 1) (store mem s (mem t)) a,
)

tail : (mem : Mem) (p i : ℕ) → mem (p + 1 + i) ≡ mem (p + suc i)
tail mem p i = ap mem (omega arith)

head : (mem : Mem) (p : ℕ) → mem (p + 0) ≡ mem p
head mem p = ap mem (omega arith)

-- A store outside a string leaves its end where it was, seen from the next byte.
EndsAt-tail :
    (s t k : ℕ) (mem : Mem)
    → (s < t + 1) ⊎ (t + 1 + k < s)
    → EndsAt t (suc k) mem
    → EndsAt (t + 1) k (store mem s (mem t))
EndsAt-tail s t k mem h e = (
  ground (arith, e.0, tail mem t k),
  λ j hj. ground (arith, e.1 (suc j) (omega arith), tail mem t j),
)

strncpy_inside :
    (n s t k : ℕ) (mem : Mem)
    → Apart s t n k
    → EndsAt t k mem
    → (i : ℕ) → i < n
    → strncpy s t n mem (s + i) ≡ (if ltb i k then mem (t + i) else 0)
unfolding strncpy
strncpy_inside zero s t k mem apart e i h = absurd (omega arith)
strncpy_inside (suc n) s t zero mem apart e i h =
    ground (arith, e.0, head mem t, pad_lem n (s + 1) (store mem s (mem t)) (s + i))
strncpy_inside (suc n) s t (suc k) mem apart e zero h = ground (
  arith,
  e.1 0 (omega arith),
  head mem t,
  strncpy_outside n (s + 1) (t + 1) (store mem s (mem t)) (s + 0) (inl (omega arith)),
)
strncpy_inside (suc n) s t (suc k) mem apart e (suc i) h = ground (
  arith,
  e.1 0 (omega arith),
  head mem t,
  tail (strncpy (s + 1) (t + 1) n (store mem s (mem t))) s i,
  strncpy_inside n (s + 1) (t + 1) k (store mem s (mem t)) (ground arith)
      (EndsAt-tail s t k mem (ground arith) e) i (omega arith),
  tail mem t i,
)

-- strncpy leaves in the n bytes at s the string at t up to its first 0 byte, and zeros from there
-- on; it writes no other byte.
strncpy_lem :
    (n s t k : ℕ) (mem : Mem)
    → Apart s t n k
    → EndsAt t k mem
    → ((i : ℕ) → i < n → strncpy s t n mem (s + i) ≡ (if ltb i k then mem (t + i) else 0))
      × ((a : ℕ) → (a < s) ⊎ (s + n ≤ a) → strncpy s t n mem a ≡ mem a)
strncpy_lem n s t k mem apart e = (strncpy_inside n s t k mem apart e, strncpy_outside n s t mem)

safestrcpy_outside :
    (n s t : ℕ) (mem : Mem) (a : ℕ)
    → (a < s) ⊎ (s + suc n ≤ a)
    → safestrcpy_from s t n mem a ≡ mem a
unfolding safestrcpy_from
safestrcpy_outside zero s t mem a h = ground arith
safestrcpy_outside (suc n) s t mem a h =
    ground (arith, safestrcpy_outside n (s + 1) (t + 1) (store mem s (mem t)) a)

-- The bytes that the loop of safestrcpy leaves: those of the string at t, cut to fit, and a 0.
safestrcpy_inside :
    (n s t k : ℕ) (mem : Mem)
    → Apart s t (suc n) k
    → EndsAt t k mem
    → (i : ℕ) → i ≤ min k n
    → safestrcpy_from s t n mem (s + i) ≡ (if ltb i (min k n) then mem (t + i) else 0)
unfolding safestrcpy_from
safestrcpy_inside zero s t k mem apart e i h = ground arith
safestrcpy_inside (suc n) s t zero mem apart e i h = ground (arith, e.0, head mem t)
safestrcpy_inside (suc n) s t (suc k) mem apart e zero h = ground (
  arith,
  e.1 0 (omega arith),
  head mem t,
  safestrcpy_outside n (s + 1) (t + 1) (store mem s (mem t)) (s + 0) (inl (omega arith)),
)
safestrcpy_inside (suc n) s t (suc k) mem apart e (suc i) h = ground (
  arith,
  e.1 0 (omega arith),
  head mem t,
  tail (safestrcpy_from (s + 1) (t + 1) n (store mem s (mem t))) s i,
  safestrcpy_inside n (s + 1) (t + 1) k (store mem s (mem t)) (ground arith)
      (EndsAt-tail s t k mem (ground arith) e) i (omega arith),
  tail mem t i,
)

-- safestrcpy leaves at s, in n bytes, the string at t cut to n - 1 bytes, always ended by a 0 byte,
-- and writes no byte outside these n.
safestrcpy_lem :
    (n s t k : ℕ) (mem : Mem)
    → 0 < n
    → Apart s t n k
    → EndsAt t k mem
    → let mem' = safestrcpy s t n mem in
      EndsAt s (min k (n - 1)) mem'
      × ((j : ℕ) → j < min k (n - 1) → mem' (s + j) ≡ mem (t + j))
      × ((a : ℕ) → (a < s) ⊎ (s + n ≤ a) → mem' a ≡ mem a)
unfolding safestrcpy
safestrcpy_lem zero s t k mem h apart e = absurd (omega arith)
safestrcpy_lem (suc n) s t k mem h apart e = (
  (
    ground (arith, inside (min k n) (omega arith)),
    λ j hj. ground (arith, inside j (omega arith), e.1 j (omega arith)),
  ),
  λ j hj. ground (arith, inside j (omega arith)),
  safestrcpy_outside n s t mem,
)
  where
    inside :
        (i : ℕ)
        → i ≤ min k n
        → safestrcpy_from s t n mem (s + i) ≡ (if ltb i (min k n) then mem (t + i) else 0)
    inside = safestrcpy_inside n s t k mem apart e
