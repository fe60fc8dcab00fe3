-- ===== src/Console/Read/Take.antt =====
-- consoleread of kernel/console.c takes the bytes of a line in order.
use os_spring.Prelude.{
  ℕ, zero, suc, ◌+◌, ◌-◌, ◌%◌, ◌^◌, ◌≤◌, ◌<◌, ◌≡◌, ◌≢◌, ◌⊎◌, inl, inr, refl, ap, ◌∙◌, List, [], ◌∷◌,
  ◌++◌, Bool, true, false, ◌&&◌, arith, length, get_or, ltb, ◌==◌, Bool-cases, if◌then◌else◌,
}
use os_spring.Console.{Console, input_buf, uint, minus, newline, ctrl_d}
use os_spring.Console.Read.{Read, returns, fails, sleeps, read_from, consoleread}

-- `n` bytes of the ring from the counter `r` on
abbrev bytes_from : List ℕ → ℕ → ℕ → List ℕ
bytes_from buf zero r = []
bytes_from buf (suc n) r = get_or buf (r % input_buf) 0 ∷ bytes_from buf n (uint (r + 1))

-- What can be read: the bytes between the counters r and w.
abbrev pub pending : Console → List ℕ
pending c = bytes_from c.buf (minus c.w c.r) c.r

-- No end-of-file, and a newline only as the last byte.
abbrev pub InLine : List ℕ → Type 0
InLine [] = Unit {0}
InLine (b ∷ []) = b ≢ ctrl_d
InLine (b ∷ (b' ∷ bs)) = (b ≢ ctrl_d) × (b ≢ newline) × InLine (b' ∷ bs)

abbrev ends_line : List ℕ → Bool
ends_line [] = false
ends_line (b ∷ []) = b == newline
ends_line (b ∷ (b' ∷ bs)) = ends_line (b' ∷ bs)

abbrev is_empty : List ℕ → Bool
is_empty [] = true
is_empty (b ∷ bs) = false

-- How a read of `n` more bytes of `target` to `dst` may end: it has all of them or a line, it has come to
-- an end-of-file, a byte was not taken and is lost, or it has all that can be read and waits or is killed.
pub data Reads (takes : ℕ → Bool) (killed : Bool) (target n dst : ℕ) (c : Console) (r : Read)
    (out : List ℕ) (c' : Console) : Type 0 where
  full :
      r ≡ returns (target - n + length out)
      → (length out ≡ n) ⊎ (ends_line out ≡ true)
      → pending c ≡ out ++ pending c'
      → Reads takes killed target n dst c r out c'
  eof :
      (rest : List ℕ)
      → r ≡ returns (target - n + length out)
      → pending c ≡ out ++ ctrl_d ∷ rest
      → pending c' ≡ (if n == target && is_empty out then rest else ctrl_d ∷ rest)
      → Reads takes killed target n dst c r out c'
  lost :
      (b : ℕ)
      → r ≡ returns (target - n + length out)
      → takes (dst + length out) ≡ false
      → pending c ≡ out ++ b ∷ pending c'
      → Reads takes killed target n dst c r out c'
  waits :
      r ≡ (if killed then fails else sleeps (n - length out))
      → pending c ≡ out
      → pending c' ≡ []
      → Reads takes killed target n dst c r out c'

InLine-cons : (b : ℕ) (bs : List ℕ) → b ≢ ctrl_d → b ≢ newline → InLine bs → InLine (b ∷ bs)
InLine-cons b [] ne ne' h = ne
InLine-cons b (b' ∷ bs) ne ne' h = (ne, ne', h)

ends_line-cons : (b : ℕ) (bs : List ℕ) → ends_line bs ≡ true → ends_line (b ∷ bs) ≡ true
ends_line-cons b [] e = cc e
ends_line-cons b (b' ∷ bs) e = e

module _ (takes : ℕ → Bool) (killed : Bool) (target : ℕ) where
  -- A byte more, in front.
  one_more :
      (n dst b : ℕ) (c c₁ : Console) (r : Read) (out : List ℕ) (c' : Console)
      → suc n ≤ target
      → pending c ≡ b ∷ pending c₁
      → Reads takes killed target n (dst + 1) c₁ r out c'
      → Reads takes killed target (suc n) dst c r (b ∷ out) c'
  one_more n dst b c c₁ r out c' h p (full e stop q) =
      full (e ∙ ap returns (omega (arith, h)))
        (elim stop [ inl all ↦ inl (ap suc all) | inr line ↦ inr (ends_line-cons b out line) ])
        (p ∙ ap (λ u. b ∷ u) q)
  one_more n dst b c c₁ r out c' h p (eof rest e q q') =
      eof rest (e ∙ ap returns (omega (arith, h))) (p ∙ ap (λ u. b ∷ u) q) (q' ∙ ground (arith, h))
  one_more n dst b c c₁ r out c' h p (lost x e t q) =
      lost x (e ∙ ap returns (omega (arith, h))) (ap takes (omega arith) ∙ t)
        (p ∙ ap (λ u. b ∷ u) q)
  one_more n dst b c c₁ r out c' h p (waits e q q') =
      waits (e ∙ ap (λ (x : ℕ). if killed then fails else sleeps x) (omega arith))
        (p ∙ ap (λ u. b ∷ u) q) q'

  pending_next :
      (c : Console)
      → c.r < 2 ^ 32
      → c.w < 2 ^ 32
      → c.r ≢ c.w
      → pending c ≡ get_or c.buf (c.r % input_buf) 0 ∷ pending (record c { r = uint (c.r + 1) })
  pending_next c hr hw ne =
      let one_less : minus c.w c.r ≡ suc (minus c.w (uint (c.r + 1))) = omega (arith, hr, hw, ne) in
      ap (λ k. bytes_from c.buf k c.r) one_less

  nothing_pending : (c : Console) → c.r ≡ c.w → c.w < 2 ^ 32 → pending c ≡ []
  nothing_pending c e hw =
      let none_left : minus c.w c.r ≡ 0 = omega (arith, e, hw) in
      ap (λ k. bytes_from c.buf k c.r) none_left

  -- cons.r-- after an end-of-file that is kept for the next call.
  after_eof :
      (n : ℕ) (c : Console)
      → let c₁ = record c { r = uint (c.r + 1) } in
        pending c ≡ ctrl_d ∷ pending c₁
        → suc n ≤ target
        → c.r < 2 ^ 32
        → pending (if ltb (suc n) target then record c₁ { r = minus c₁.r 1 } else c₁)
          ≡ (if suc n == target && true then pending c₁ else ctrl_d ∷ pending c₁)
  after_eof n c here h hr = elim (Bool-cases (ltb (suc n) target)) [
    | inl kept ↦
        let more : (suc n == target) ≡ false = ground (arith, kept) in
        let back : minus (uint (c.r + 1)) 1 ≡ c.r = omega (arith, hr) in
        rw (kept, more) (ap (λ (i : ℕ). pending (record c { r = i })) back ∙ here)
    | inr last ↦ let all : (suc n == target) ≡ true = ground (arith, last, h) in rw (last, all) refl
  ]

  read_from-Reads :
      (n dst : ℕ) (c : Console)
      → n ≤ target
      → c.r < 2 ^ 32
      → c.w < 2 ^ 32
      → let (r, out, c') = read_from takes killed target n dst c in
        InLine out × Reads takes killed target n dst c r out c'
  unfolding read_from
  read_from-Reads zero dst c h hr hw = (tt, full (ap returns (omega arith)) (inl refl) refl)
  read_from-Reads (suc n) dst c h hr hw =
      let ch = get_or c.buf (c.r % input_buf) 0 in
      let c₁ = record c { r = uint (c.r + 1) } in
      elim (Bool-cases (c.r == c.w)) [
        | inl none_left ↦
            let nothing = nothing_pending c (ground (arith, none_left)) hw in
            elim (Bool-cases killed) [
              | inl dead ↦ rw (none_left, dead) (tt, waits refl nothing nothing)
              | inr alive ↦
                  rw (none_left, alive) (tt, waits (ap sleeps (omega arith)) nothing nothing)
            ]
        | inr more ↦
            let p = pending_next c hr hw (ground (arith, more)) in
            elim (Bool-cases (ch == ctrl_d)) [
              | inl end ↦
                  let here : pending c ≡ ctrl_d ∷ pending c₁ =
                    p ∙ ap (λ (x : ℕ). x ∷ pending c₁) (ground (arith, end)) in
                  rw (more, end)
                    (tt, eof (pending c₁) (ap returns (omega arith)) here (after_eof n c here h hr))
              | inr ink ↦ elim (Bool-cases (takes dst)) [
                | inr refused ↦
                    rw (more, ink, refused)
                      (tt, lost ch (ap returns (omega arith)) (ap takes (omega arith) ∙ refused) p)
                | inl taken ↦ elim (Bool-cases (ch == newline)) [
                  | inl line ↦
                      rw (more, ink, taken, line)
                        (
                          (λ e. ground (arith, e, ink)),
                          full (ap returns (omega (arith, h))) (inr line) p,
                        )
                  | inr on ↦
                      let (inside, rest) =
                        read_from-Reads n (dst + 1) c₁ (omega arith) (omega arith) hw in
                      rw (more, ink, taken, on)
                        (
                          InLine-cons ch (read_from takes killed target n (dst + 1) c₁).1
                              (λ e. ground (arith, e, ink)) (λ e. ground (arith, e, on)) inside,
                          one_more n dst ch c c₁ (read_from takes killed target n (dst + 1) c₁).0
                              (read_from takes killed target n (dst + 1) c₁).1
                              (read_from takes killed target n (dst + 1) c₁).2 h p rest,
                        )
                ]
              ]
            ]
      ]

-- consoleread, with the counters in their range: what it copies are the first bytes that can be read, in
-- order, none of them an end-of-file and a newline only as the last. It ends with their count when it has
-- all that are wanted, or a line, or comes to an end-of-file, which stays for the next call unless nothing
-- was copied, or when a byte cannot be copied, which is lost; when nothing more can be read it sleeps, or
-- fails for a process that is killed.
pub consoleread-Reads :
    (takes : ℕ → Bool) (killed : Bool) (dst n : ℕ) (c : Console)
    → c.r < 2 ^ 32
    → c.w < 2 ^ 32
    → let (r, out, c') = consoleread takes killed dst n c in
      InLine out × Reads takes killed n n dst c r out c'
unfolding consoleread
consoleread-Reads takes killed dst n c hr hw =
    read_from-Reads takes killed n n dst c (omega arith) hr hw
