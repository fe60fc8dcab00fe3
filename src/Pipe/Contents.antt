-- ===== src/Pipe/Contents.antt =====
-- The bytes that a pipe of kernel/pipe.c holds, oldest first, and what one byte in or out does.
use mathlib.Core.Path.{ap₂}
use native.Mathlib.Numerals.{add-one}
use os_spring.Prelude.{
  ℕ, zero, suc, ◌+◌, ◌-◌, ◌%◌, ◌^◌, ◌≤◌, ◌<◌, ◌≡◌, ◌≢◌, ◌↔◌, refl, ap, ◌∙◌, List, [], ◌∷◌, ◌++◌,
  arith, length, get_or, set, length-set, get_or-set_self, get_or-set_ne,
}
use os_spring.Pipe.{Pipe, pipesize, uint, put, pipe_init}

-- The `n` bytes from counter value `s` on.
abbrev window : List ℕ → ℕ → ℕ → List ℕ
window bytes s zero = []
window bytes s (suc n) = get_or bytes (s % pipesize) 0 ∷ window bytes (s + 1) n

-- nwrite - nread, as uint
abbrev pub count : Pipe → ℕ
count p = (p.nwrite + 2 ^ 32 - p.nread) % 2 ^ 32

abbrev pub contents : Pipe → List ℕ
contents p = window p.bytes p.nread (count p)

pub record IsValid (p : Pipe) : Type 0 where
  pub storage : pipesize ≤ length p.bytes
  pub read_in : p.nread < 2 ^ 32
  pub write_in : p.nwrite < 2 ^ 32
  pub fits : count p ≤ pipesize

window-congr :
    (bytes : List ℕ) (n s t : ℕ) → s % pipesize ≡ t % pipesize → window bytes s n ≡ window bytes t n
window-congr bytes zero s t e = refl
window-congr bytes (suc n) s t e = rw (e, window-congr bytes n (s + 1) (t + 1) (omega arith))

window-set :
    (bytes : List ℕ) (n s w ch : ℕ)
    → pipesize ≤ length bytes
    → n < pipesize
    → w % pipesize ≡ (s + n) % pipesize
    → window (set bytes (w % pipesize) ch) s (suc n) ≡ window bytes s n ++ ch ∷ []
window-set bytes zero s w ch h hn e =
    let same : w % pipesize ≡ s % pipesize = omega arith in
    ap (λ (x : ℕ). x ∷ []) (rw same (get_or-set_self bytes (s % pipesize) ch 0 (omega arith)))
window-set bytes (suc n) s w ch h hn e =
    ap₂ ◌∷◌ (get_or-set_ne bytes (w % pipesize) (s % pipesize) ch 0 (omega arith))
      (window-set bytes n (s + 1) w ch h (omega arith) (omega arith))

module _ (p : Pipe) (v : IsValid p) where
  count-put : (ch : ℕ) → count p < pipesize → count (put ch p) ≡ count p + 1
  unfolding put
  count-put ch h = omega (arith, v.read_in, v.write_in)

  -- A byte put into a pipe that is not full goes behind those that it holds.
  pub contents-put : (ch : ℕ) → count p < pipesize → contents (put ch p) ≡ contents p ++ ch ∷ []
  unfolding put
  contents-put ch h =
      ap (window (put ch p).bytes p.nread) (count-put ch h ∙ add-one (count p))
      ∙ window-set p.bytes (count p) p.nread p.nwrite ch v.storage h
          (omega (arith, v.read_in, v.write_in))

  pub put-IsValid : (ch : ℕ) → count p < pipesize → IsValid (put ch p)
  unfolding put
  put-IsValid ch h = record {
    storage = omega (arith, v.storage, length-set p.bytes (p.nwrite % pipesize) ch);
    read_in = v.read_in;
    write_in = omega arith;
    fits = omega (arith, count-put ch h);
  }

  -- The pipe after the oldest byte has been taken.
  abbrev pub taken : Pipe
  taken = record p { nread = uint (p.nread + 1) }

  pub contents-taken :
      p.nread ≢ p.nwrite → contents p ≡ get_or p.bytes (p.nread % pipesize) 0 ∷ contents taken
  contents-taken h =
      let more : count p ≡ suc (count taken) = omega (arith, v.read_in, v.write_in) in
      ap (window p.bytes p.nread) more
      ∙ ap (λ (xs : List ℕ). get_or p.bytes (p.nread % pipesize) 0 ∷ xs)
          (window-congr p.bytes (count taken) (p.nread + 1) (uint (p.nread + 1)) (omega arith))

  pub taken-IsValid : p.nread ≢ p.nwrite → IsValid taken
  taken-IsValid h = record {
    storage = v.storage;
    read_in = omega arith;
    write_in = v.write_in;
    fits = omega (arith, v.read_in, v.write_in, v.fits);
  }

  -- pipewrite's test for a full pipe, and piperead's for an empty one.
  pub is_full : (p.nwrite ≡ uint (p.nread + pipesize)) ↔ (count p ≡ pipesize)
  is_full = (λ e. omega (arith, v.read_in, v.write_in), λ e. omega (arith, v.read_in, v.write_in))

-- A new pipe is valid and empty.
pipe_init-IsValid :
    (page : List ℕ)
    → pipesize ≤ length page
    → IsValid (pipe_init page) × (contents (pipe_init page) ≡ [])
unfolding pipe_init
pipe_init-IsValid page h = (
  record { storage = h; read_in = omega arith; write_in = omega arith; fits = omega arith },
  refl,
)
