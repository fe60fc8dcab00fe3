-- ===== src/Sh/Tokens.antt =====
-- What gettoken and peek of user/sh.c leave of the input.
use os_spring.Prelude.{
  ℕ, suc, ◌≤◌, ◌<◌, ◌≡◌, ◌⊎◌, inl, inr, refl, sym, subst, ap, ◌∙◌, List, [], ◌∷◌, true, false, ◌||◌,
  arith, length, ◌==◌, Bool-cases,
}
use os_spring.Sh.{Word, is_space, is_symbol, skip, word, greater, token, gettoken, peek}

skip_le : (s : List ℕ) → length (skip s) ≤ length s
unfolding skip
skip_le [] = omega arith
skip_le (c ∷ s) = ground (arith, skip_le s)

skip_head : (s t : List ℕ) (c : ℕ) → skip s ≡ c ∷ t → (is_space c ≡ false) × (length t < length s)
unfolding skip
skip_head [] t c e = cc e
skip_head (d ∷ s) t c e = elim (Bool-cases (is_space d)) [
  | inl space ↦
      let there : skip s ≡ skip (d ∷ s) = rw space refl in
      let (h, l) = skip_head s t c (there ∙ e) in (h, omega (arith, l))
  | inr other ↦
      let here : d ∷ s ≡ skip (d ∷ s) = rw other refl in
      let same_head : d ≡ c = cc (here ∙ e) in
      let same_tail : s ≡ t = cc (here ∙ e) in
      (
        subst (λ x. is_space x ≡ false) same_head other,
        subst (λ x. length x < suc (length s)) same_tail (omega arith),
      )
]

word_le : (s : List ℕ) → length (word s).1 ≤ length s
unfolding word
word_le [] = omega arith
word_le (c ∷ s) = ground (arith, word_le s)

greater_le : (t : List ℕ) → length (greater t).2 ≤ length t
unfolding greater skip
greater_le [] = omega arith
greater_le (d ∷ u) = ground (arith, skip_le u, skip_le (d ∷ u))

-- A token that does not begin with a space takes a byte at least.
token_le : (c : ℕ) (t : List ℕ) → is_space c ≡ false → length (token c t).2 ≤ length t
unfolding token word
token_le c t h =
    elim (Bool-cases (c == 124 || (c == 40 || (c == 41 || (c == 59 || (c == 38 || c == 60)))))) [
      | inl single ↦ rw single (skip_le t)
      | inr other ↦ elim (Bool-cases (c == 62)) [
        | inl g ↦ rw (other, g) (greater_le t)
        | inr plain ↦
            let letter : (is_space c || is_symbol c) ≡ false = ground (arith, h, other, plain) in
            rw (letter, other, plain) (omega (arith, skip_le (word t).1, word_le t))
      ]
    ]

-- What gettoken leaves: no more than it had, and less where it finds a token.
gettoken_le :
    (s : List ℕ)
    → (skip s ≡ []) × ((gettoken s).0 ≡ 0) × (length (gettoken s).2 ≤ length s)
      ⊎ ((c : ℕ) × (t : List ℕ) × (skip s ≡ c ∷ t) × (length (gettoken s).2 < length s))
unfolding gettoken
gettoken_le s = go (skip s) refl
  where
    go :
        (r : List ℕ)
        → skip s ≡ r
        → (skip s ≡ []) × ((gettoken s).0 ≡ 0) × (length (gettoken s).2 ≤ length s)
          ⊎ ((c : ℕ) × (t : List ℕ) × (skip s ≡ c ∷ t) × (length (gettoken s).2 < length s))
    go [] e = inl (e, rw (gettoken, e) refl, rw (gettoken, e) (omega arith))
    go (c ∷ t) e =
        let (h, l) = skip_head s t c e in
        inr (c, t, e, rw (gettoken, e) (omega (arith, token_le c t h, l)))

gettoken_at : (c : ℕ) (t : List ℕ) → is_space c ≡ false → gettoken (c ∷ t) ≡ token c t
unfolding gettoken skip
gettoken_at c t h = let here : skip (c ∷ t) ≡ c ∷ t = rw h refl in rw (gettoken, here) refl

pub peek_le : (s toks : List ℕ) → length (peek s toks).1 ≤ length s
unfolding peek
peek_le s toks = go (skip s) refl
  where
    go : (r : List ℕ) → skip s ≡ r → length (peek s toks).1 ≤ length s
    go [] e = rw (peek, e) (omega arith)
    go (c ∷ t) e = rw (peek, e) (omega (arith, (skip_head s t c e).1))

-- Where peek says yes, gettoken takes a byte at least.
pub peek_token :
    (s toks : List ℕ) → (peek s toks).0 ≡ true → length (gettoken (peek s toks).1).2 < length s
unfolding peek
peek_token s toks yes_there = go (skip s) refl
  where
    go : (r : List ℕ) → skip s ≡ r → length (gettoken (peek s toks).1).2 < length s
    go [] e = let never : (peek s toks).0 ≡ false = rw (peek, e) refl in cc (sym never ∙ yes_there)
    go (c ∷ t) e =
        let (h, l) = skip_head s t c e in
        let at : (peek s toks).1 ≡ c ∷ t = rw (peek, e) refl in
        let rest : gettoken (peek s toks).1 ≡ token c t = ap gettoken at ∙ gettoken_at c t h in
        subst (λ (r : ℕ × Word × List ℕ). length r.2 < length s) (sym rest)
          (omega (arith, token_le c t h, l))

pub gettoken_rest : (s : List ℕ) → length (gettoken s).2 ≤ length s
gettoken_rest s = elim (gettoken_le s) [ inl (_, _, l) ↦ l | inr (_, _, _, l) ↦ omega (arith, l) ]

-- gettoken_le without the first byte.
pub gettoken_short : (s : List ℕ) → ((gettoken s).0 ≡ 0) ⊎ (length (gettoken s).2 < length s)
gettoken_short s = elim (gettoken_le s) [ inl (_, e, _) ↦ inl e | inr (_, _, _, l) ↦ inr l ]
