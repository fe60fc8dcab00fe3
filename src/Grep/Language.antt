-- ===== src/Grep/Language.antt =====
-- user/grep.c: what the matcher accepts, by splittings of the text.
use os_spring.Prelude.{
  ℕ, ◌≡◌, ◌≢◌, ◌⊎◌, ◌↔◌, inl, inr, refl, sym, subst, ap, List, [], ◌∷◌, ◌++◌, Bool, true, false,
  arith, All, ◌==◌, ==_iff, Bool-cases, if◌then◌else◌,
}
use os_spring.Grep.{
  star, dot, caret, dollar, is_end, matchstar, match_one, matchhere, match_from, match_re,
}

-- The text begins with bytes that `c*` stands for, and goes on as `Rest` says.
abbrev Stars : ℕ → (List ℕ → Type 0) → List ℕ → Type 0
Stars c Rest text = (u v : List ℕ) × (text ≡ u ++ v) × All (λ x. (x ≡ c) ⊎ (c ≡ dot)) u × Rest v

abbrev One : ℕ → (List ℕ → Type 0) → List ℕ → Type 0
One c Rest text = (x : ℕ) × (v : List ℕ) × (text ≡ x ∷ v) × ((c ≡ dot) ⊎ (c ≡ x)) × Rest v

-- The text begins as the pattern says.
abbrev Here : List ℕ → List ℕ → Type 0
Here [] text = Unit {0}
Here (c ∷ []) text = ((c ≡ dollar) × (text ≡ [])) ⊎ ((c ≢ dollar) × One c (λ v. Unit {0}) text)
Here (c ∷ d ∷ re) text =
    ((d ≡ star) × Stars c (Here re) text) ⊎ ((d ≢ star) × One c (Here (d ∷ re)) text)

abbrev pub Found : List ℕ → List ℕ → Type 0
Found re text = (u v : List ℕ) × (text ≡ u ++ v) × Here re v

abbrev pub Matches : List ℕ → List ℕ → Type 0
Matches [] text = Found [] text
Matches (c ∷ re) text = ((c ≡ caret) × Here re text) ⊎ ((c ≢ caret) × Found (c ∷ re) text)

module _ (c : ℕ) (here : List ℕ → Bool) (Rest : List ℕ → Type 0)
    (iff : (text : List ℕ) → (here text ≡ true) ↔ Rest text) where
  Stars-to : (text : List ℕ) → matchstar c here text ≡ true → Stars c Rest text
  unfolding matchstar
  Stars-to [] e = ([], [], refl, tt, (iff []).0 e)
  Stars-to (x ∷ text) e = elim (Bool-cases (here (x ∷ text))) [
    | inl now ↦ ([], x ∷ text, refl, tt, (iff (x ∷ text)).0 now)
    | inr later ↦
        let (u, v, eq, all, rest) = Stars-to text (ground (arith, later, e)) in
        (x ∷ u, v, ap (λ t. x ∷ t) eq, (ground (arith, later, e), all), rest)
  ]

  matchstar-append :
      (u v : List ℕ) → All (λ x. (x ≡ c) ⊎ (c ≡ dot)) u → Rest v → matchstar c here (u ++ v) ≡ true
  unfolding matchstar
  matchstar-append [] [] a r = (iff []).1 r
  matchstar-append [] (x ∷ v) a r = rw ((iff (x ∷ v)).1 r) refl
  matchstar-append (x ∷ u) v a r = elim (Bool-cases (here (x ∷ (u ++ v)))) [
    | inl now ↦ rw now refl
    | inr later ↦ ground (arith, later, a.0, matchstar-append u v a.1 r)
  ]

  matchstar_lem : (text : List ℕ) → (matchstar c here text ≡ true) ↔ Stars c Rest text
  matchstar_lem text = (
    Stars-to text,
    λ (u, v, eq, a, r). subst (λ t. matchstar c here t ≡ true) (sym eq) (matchstar-append u v a r),
  )

  One-to : (text : List ℕ) → match_one c here text ≡ true → One c Rest text
  unfolding match_one
  One-to [] e = cc e
  One-to (x ∷ text) e = (x, text, refl, ground (arith, e), (iff text).0 (ground (arith, e)))

  match_one_lem : (text : List ℕ) → (match_one c here text ≡ true) ↔ One c Rest text
  unfolding match_one
  match_one_lem text = (One-to text, λ (x, v, eq, f, r). rw eq (ground (arith, f, (iff v).1 r)))

is_end_lem : (text : List ℕ) → (is_end text ≡ true) ↔ (text ≡ [])
is_end_lem [] = (λ e. refl, λ e. refl)
is_end_lem (x ∷ text) = (λ e. cc e, λ e. cc e)

-- The choice between two patterns by a test that decides `R`.
choice_by :
    {R P Q : Type 0} (z x y : Bool)
    → ((z ≡ true) ↔ R)
    → ((x ≡ true) ↔ P)
    → ((y ≡ true) ↔ Q)
    → ((if z then x else y) ≡ true) ↔ ((R × P) ⊎ (¬ R × Q))
choice_by true x y z p q = (
  λ h. inl (z.0 refl, p.0 h),
  λ s. elim s [ inl (_, h) ↦ p.1 h | inr (n, _) ↦ absurd (n (z.0 refl)) ],
)
choice_by false x y z p q = (
  λ h. inr ((λ r. cc (z.1 r)), q.0 h),
  λ s. elim s [ inl (r, _) ↦ cc (z.1 r) | inr (_, h) ↦ q.1 h ],
)

choice :
    (b t : ℕ) (x y : Bool) {P Q : Type 0}
    → ((x ≡ true) ↔ P)
    → ((y ≡ true) ↔ Q)
    → ((if b == t then x else y) ≡ true) ↔ (((b ≡ t) × P) ⊎ ((b ≢ t) × Q))
choice b t x y p q = choice_by (b == t) x y (==_iff b t) p q

matchhere_lem : (re text : List ℕ) → (matchhere re text ≡ true) ↔ Here re text
unfolding matchhere
matchhere_lem [] text = (λ e. tt, λ h. refl)
matchhere_lem (c ∷ []) text =
    choice c dollar _ _ (is_end_lem text)
      (match_one_lem c (matchhere []) _ (λ t. (λ e. tt, λ h. refl)) text)
matchhere_lem (c ∷ d ∷ re) text =
    choice d star _ _ (matchstar_lem c (matchhere re) (Here re) (matchhere_lem re) text)
      (match_one_lem c (matchhere (d ∷ re)) (Here (d ∷ re)) (matchhere_lem (d ∷ re)) text)

match_from_to : (re text : List ℕ) → match_from re text ≡ true → Found re text
unfolding match_from
match_from_to re [] e = ([], [], refl, (matchhere_lem re []).0 e)
match_from_to re (x ∷ text) e = elim (Bool-cases (matchhere re (x ∷ text))) [
  | inl now ↦ ([], x ∷ text, refl, (matchhere_lem re (x ∷ text)).0 now)
  | inr later ↦
      let (u, v, eq, h) = match_from_to re text (ground (arith, later, e)) in
      (x ∷ u, v, ap (λ t. x ∷ t) eq, h)
]

match_from-append : (re u v : List ℕ) → Here re v → match_from re (u ++ v) ≡ true
unfolding match_from
match_from-append re [] [] h = (matchhere_lem re []).1 h
match_from-append re [] (x ∷ v) h = rw ((matchhere_lem re (x ∷ v)).1 h) refl
match_from-append re (x ∷ u) v h = elim (Bool-cases (matchhere re (x ∷ (u ++ v)))) [
  | inl now ↦ rw now refl
  | inr later ↦ rw later (match_from-append re u v h)
]

match_from_lem : (re text : List ℕ) → (match_from re text ≡ true) ↔ Found re text
match_from_lem re text = (
  match_from_to re text,
  λ (u, v, eq, h). subst (λ t. match_from re t ≡ true) (sym eq) (match_from-append re u v h),
)

-- match answers 1 exactly when the text, or with ^ its beginning, is as the pattern says, where `c*`
-- stands for any number of bytes c, . for any byte, and a last $ for the end of the text.
pub match_re_lem : (re text : List ℕ) → (match_re re text ≡ true) ↔ Matches re text
unfolding match_re
match_re_lem [] text = match_from_lem [] text
match_re_lem (c ∷ re) text =
    choice c caret _ _ (matchhere_lem re text) (match_from_lem (c ∷ re) text)
