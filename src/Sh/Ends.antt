-- ===== src/Sh/Ends.antt =====
-- The parser of user/sh.c ends on every input.
use os_spring.Prelude.{
  ℕ, zero, suc, ◌+◌, ◌≤◌, ◌<◌, ◌≡◌, ◌⊎◌, inl, inr, refl, List, [], ◌∷◌, ◌++◌, true, false, not,
  ◌||◌, arith, length, leb, ◌==◌, Bool-cases, Outcome, ok, panic,
}
use os_spring.Sh.{
  Cmd, Word, Redirs, list, pipe, back, exec, gettoken, peek, wrap, redirection, parseredirs,
  parseargs, maxargs, parseblock, parseexec, parsepipe, parsebacks, parseline, parsecmd,
}
use os_spring.Sh.Tokens.{peek_le, peek_token, gettoken_rest, gettoken_short}

-- A parser's result: a syntax error, or an answer with no more than `n` bytes left.
abbrev pub Ends {ℓ} : {A : Type ℓ} → Outcome (A × List ℕ) → ℕ → Type ℓ
Ends {A = A} r n =
    (r ≡ panic) ⊎ ((a : A) × (rest : List ℕ) × (r ≡ ok (a, rest)) × (length rest ≤ n))

parseredirs-Ends : (k : ℕ) (s : List ℕ) → length s < k → Ends (parseredirs k s) (length s)
unfolding parseredirs
parseredirs-Ends zero s h = absurd (omega (arith, h))
parseredirs-Ends (suc k) s h =
    let s₁ = (peek s (60 ∷ 62 ∷ [])).1 in
    let s₂ = (gettoken s₁).2 in
    let s₃ = (gettoken s₂).2 in
    elim (Bool-cases (peek s (60 ∷ 62 ∷ [])).0) [
      | inr stop ↦ inr ([], s₁, rw stop refl, peek_le s (60 ∷ 62 ∷ []))
      | inl more ↦ elim (Bool-cases ((gettoken s₂).0 == 97)) [
        | inr wrong ↦ inl (rw (more, wrong) refl)
        | inl file ↦
            let shorter : length s₃ < length s =
              omega (arith, peek_token s (60 ∷ 62 ∷ []) more, gettoken_rest s₂) in
            elim (parseredirs-Ends k s₃ (omega (arith, shorter, h))) [
              | inl e ↦ inl (rw (more, file, e) refl)
              | inr (rs, rest, e, l) ↦ inr (
                redirection (gettoken s₁).0 (gettoken s₂).1 ++ rs,
                rest,
                rw (more, file, e) refl,
                omega (arith, l, shorter),
              )
            ]
      ]
    ]

parseargs-Ends :
    (k argc : ℕ) (s : List ℕ)
    → length s < k
    → (parseargs k argc s ≡ panic)
      ⊎ ((ws : List Word) × (rs : Redirs) × (rest : List ℕ) × (parseargs k argc s
            ≡ ok (ws, rs, rest))
          × (length rest ≤ length s))
unfolding parseargs
parseargs-Ends zero argc s h = absurd (omega (arith, h))
parseargs-Ends (suc k) argc s h =
    let toks : List ℕ = 124 ∷ 41 ∷ 38 ∷ 59 ∷ [] in
    let s₁ = (peek s toks).1 in
    let s₂ = (gettoken s₁).2 in
    let l₁ = peek_le s toks in
    elim (Bool-cases (peek s toks).0) [
      | inl stop ↦ inr ([], [], s₁, rw stop refl, l₁)
      | inr go_on ↦ elim (Bool-cases ((gettoken s₁).0 == 0)) [
        | inl end ↦ inr ([], [], s₂, rw (go_on, end) refl, omega (arith, l₁, gettoken_rest s₁))
        | inr some_token ↦
            elim (Bool-cases (not ((gettoken s₁).0 == 97) || leb maxargs (argc + 1))) [
              | inl wrong ↦ inl (ground (arith, go_on, some_token, wrong))
              | inr fine ↦
                  let word_token : ((gettoken s₁).0 == 97) ≡ true = ground (arith, fine) in
                  let room : leb maxargs (argc + 1) ≡ false = ground (arith, fine) in
                  let l₂ : length s₂ < length s = elim (gettoken_short s₁) [
                    | inl z ↦ absurd (ground (arith, z, some_token))
                    | inr l ↦ omega (arith, l, l₁)
                  ] in
                  elim (parseredirs-Ends (suc (length s₂)) s₂ (omega arith)) [
                    | inl e ↦ inl (rw (go_on, some_token, word_token, room, e) refl)
                    | inr (rs, s₃, e, l₃) ↦
                        elim (parseargs-Ends k (argc + 1) s₃ (omega (arith, l₂, l₃, h))) [
                          | inl e' ↦ inl (rw (go_on, some_token, word_token, room, e, e') refl)
                          | inr (ws, rs', s₄, e', l₄) ↦ inr (
                            (gettoken s₁).1 ∷ ws,
                            rs ++ rs',
                            s₄,
                            rw (go_on, some_token, word_token, room, e, e') refl,
                            omega (arith, l₂, l₃, l₄),
                          )
                        ]
                  ]
            ]
      ]
    ]

-- The parsers over a parseline that ends on an input of fewer than `n` bytes.
module _ (n : ℕ) (line : List ℕ → Outcome (Cmd × List ℕ))
    (h : (s : List ℕ) → length s < n → Ends (line s) (length s)) where
  parseblock-Ends : (s : List ℕ) → length s ≤ n → Ends (parseblock line s) (length s)
  unfolding parseblock
  parseblock-Ends s l =
      let s₁ = (peek s (40 ∷ [])).1 in
      let s₂ = (gettoken s₁).2 in
      elim (Bool-cases (peek s (40 ∷ [])).0) [
        | inr no_block ↦ inl (rw no_block refl)
        | inl block ↦
            let l₂ = peek_token s (40 ∷ []) block in
            elim (h s₂ (omega (arith, l, l₂))) [
              | inl e ↦ inl (rw (block, e) refl)
              | inr (cmd, s₃, e, l₃) ↦
                  let s₄ = (peek s₃ (41 ∷ [])).1 in
                  let s₅ = (gettoken s₄).2 in
                  elim (Bool-cases (peek s₃ (41 ∷ [])).0) [
                    | inr unclosed ↦ inl (rw (block, e, unclosed) refl)
                    | inl closed ↦
                        let l₅ = peek_token s₃ (41 ∷ []) closed in
                        elim (parseredirs-Ends (suc (length s₅)) s₅ (omega arith)) [
                          | inl e' ↦ inl (rw (block, e, closed, e') refl)
                          | inr (rs, s₆, e', l₆) ↦ inr (
                            wrap cmd rs,
                            s₆,
                            rw (block, e, closed, e') refl,
                            omega (arith, l₂, l₃, l₅, l₆),
                          )
                        ]
                  ]
            ]
      ]

  parseexec-Ends : (s : List ℕ) → length s ≤ n → Ends (parseexec line s) (length s)
  unfolding parseexec
  parseexec-Ends s l =
      let s₁ = (peek s (40 ∷ [])).1 in
      let l₁ = peek_le s (40 ∷ []) in
      elim (Bool-cases (peek s (40 ∷ [])).0) [
        | inl block ↦ elim (parseblock-Ends s₁ (omega (arith, l, l₁))) [
          | inl e ↦ inl (rw (block, e) refl)
          | inr (cmd, rest, e, l₂) ↦ inr (cmd, rest, rw (block, e) refl, omega (arith, l₁, l₂))
        ]
        | inr simple ↦ elim (parseredirs-Ends (suc (length s₁)) s₁ (omega arith)) [
          | inl e ↦ inl (rw (simple, e) refl)
          | inr (rs, s₂, e, l₂) ↦ elim (parseargs-Ends (suc (length s₂)) 0 s₂ (omega arith)) [
            | inl e' ↦ inl (rw (simple, e, e') refl)
            | inr (ws, rs', s₃, e', l₃) ↦
                inr (
                  wrap (exec ws) (rs ++ rs'),
                  s₃,
                  rw (simple, e, e') refl,
                  omega (arith, l₁, l₂, l₃),
                )
          ]
        ]
      ]

  parsepipe-Ends :
      (k : ℕ) (s : List ℕ) → length s < k → length s ≤ n → Ends (parsepipe line k s) (length s)
  unfolding parsepipe
  parsepipe-Ends zero s hk l = absurd (omega (arith, hk))
  parsepipe-Ends (suc k) s hk l = elim (parseexec-Ends s l) [
    | inl e ↦ inl (rw e refl)
    | inr (cmd, s₁, e, l₁) ↦
        let s₂ = (peek s₁ (124 ∷ [])).1 in
        let s₃ = (gettoken s₂).2 in
        elim (Bool-cases (peek s₁ (124 ∷ [])).0) [
          | inr end ↦ inr (cmd, s₂, rw (e, end) refl, omega (arith, l₁, peek_le s₁ (124 ∷ [])))
          | inl more ↦
              let l₃ = peek_token s₁ (124 ∷ []) more in
              elim (parsepipe-Ends k s₃ (omega (arith, hk, l₁, l₃)) (omega (arith, l, l₁, l₃))) [
                | inl e' ↦ inl (rw (e, more, e') refl)
                | inr (right, s₄, e', l₄) ↦
                    inr (pipe cmd right, s₄, rw (e, more, e') refl, omega (arith, l₁, l₃, l₄))
              ]
        ]
  ]

parsebacks-Ends :
    (k : ℕ) (cmd : Cmd) (s : List ℕ) → length s < k → Ends (parsebacks k cmd s) (length s)
unfolding parsebacks
parsebacks-Ends zero cmd s h = absurd (omega (arith, h))
parsebacks-Ends (suc k) cmd s h =
    let s₁ = (peek s (38 ∷ [])).1 in
    elim (Bool-cases (peek s (38 ∷ [])).0) [
      | inr end ↦ inr (cmd, s₁, rw end refl, peek_le s (38 ∷ []))
      | inl more ↦
          let l₂ = peek_token s (38 ∷ []) more in
          elim (parsebacks-Ends k (back cmd) (gettoken s₁).2 (omega (arith, h, l₂))) [
            | inl e ↦ inl (rw (more, e) refl)
            | inr (cmd', rest, e, l) ↦ inr (cmd', rest, rw (more, e) refl, omega (arith, l, l₂))
          ]
    ]

parseline-Ends : (k : ℕ) (s : List ℕ) → length s < k → Ends (parseline k s) (length s)
unfolding parseline
parseline-Ends zero s h = absurd (omega (arith, h))
parseline-Ends (suc k) s h =
    elim (parsepipe-Ends k (parseline k) (parseline-Ends k) (suc (length s)) s (omega arith)
      (omega (arith, h))) [
        | inl e ↦ inl (rw e refl)
        | inr (cmd, s₁, e, l₁) ↦ elim (parsebacks-Ends (suc (length s₁)) cmd s₁ (omega arith)) [
          | inl e' ↦ inl (rw (e, e') refl)
          | inr (cmd', s₂, e', l₂) ↦
              let s₃ = (peek s₂ (59 ∷ [])).1 in
              elim (Bool-cases (peek s₂ (59 ∷ [])).0) [
                | inr end ↦
                    inr
                      (cmd', s₃, rw (e, e', end) refl, omega (arith, l₁, l₂, peek_le s₂ (59 ∷ [])))
                | inl more ↦
                    let l₄ = peek_token s₂ (59 ∷ []) more in
                    elim (parseline-Ends k (gettoken s₃).2 (omega (arith, h, l₁, l₂, l₄))) [
                      | inl e'' ↦ inl (rw (e, e', more, e'') refl)
                      | inr (right, s₅, e'', l₅) ↦ inr (
                        list cmd' right,
                        s₅,
                        rw (e, e', more, e'') refl,
                        omega (arith, l₁, l₂, l₄, l₅),
                      )
                    ]
              ]
        ]
      ]

-- parsecmd ends on every input, with a command or with a syntax error: the length of the input is
-- fuel enough for each of its loops and recursions.
pub parsecmd_ends : (s : List ℕ) → (parsecmd s ≡ panic) ⊎ ((cmd : Cmd) × (parsecmd s ≡ ok cmd))
unfolding parsecmd
parsecmd_ends s = elim (parseline-Ends (suc (length s)) s (omega arith)) [
  | inl e ↦ inl (rw e refl)
  | inr (cmd, rest, e, l) ↦ elim (Bool-cases (length (peek rest []).1 == 0)) [
    | inl all ↦ inr (cmd, rw (e, all) refl)
    | inr leftovers ↦ inl (rw (e, leftovers) refl)
  ]
]
