-- ===== src/Sh.antt =====
-- user/sh.c: the parser of the shell. The input is the list of the bytes from *ps on; es is its end. A
-- word is the bytes from q to eq, which nulterminate makes a string of its own. malloc does not fail;
-- panic ends the shell.
pub mod Tokens
pub mod Ends
mod Tests
use os_spring.Prelude.{
  ℕ, zero, suc, ◌+◌, ◌-◌, ◌*◌, ◌/◌, ◌%◌, ◌^◌, ◌≤◌, ◌<◌, ◌≡◌, ◌≢◌, ◌⊎◌, ◌↔◌, inl, inr, refl, sym,
  subst, ap, ◌∙◌, fun_ext, List, [], ◌∷◌, ◌++◌, map, Bool, true, false, not, ◌&&◌, ◌||◌, Option,
  none, some, some-injective, arith, All, All-map, length, get_elem?, get_or, set, take, drop,
  replicate, length-append, length-set, get_or-set_self, get_elem?-set_self, get_elem?-set_ne,
  get_or-set_ne, ℤ, pos, negsuc, sub_ℕ, sub_ℕ-eq_zero, ltb, leb, ◌==◌, ==_iff, Bool-cases,
  Option-cases, if◌then◌else◌, Outcome, ok, panic, fault, no_fuel, ◌>>=◌,
}

abbrev pub Word : Type 0
Word = List ℕ

-- The mode is the bits that open takes.
pub data Cmd : Type 0 where
  exec : List Word → Cmd
  redir : Cmd → Word → ℕ → ℕ → Cmd
  pipe : Cmd → Cmd → Cmd
  list : Cmd → Cmd → Cmd
  back : Cmd → Cmd

-- strchr(whitespace, c) and strchr(symbols, c), for a byte that is not 0
abbrev pub is_space : ℕ → Bool
is_space c = c == 32 || (c == 9 || (c == 13 || (c == 10 || c == 11)))

abbrev pub is_symbol : ℕ → Bool
is_symbol c = c == 60 || (c == 124 || (c == 62 || (c == 38 || (c == 59 || (c == 40 || c == 41)))))

pub skip : List ℕ → List ℕ
skip [] = []
skip (c ∷ s) = let rest = skip s in if is_space c then rest else c ∷ s

-- The loop of the default case of gettoken: the word, and the rest.
pub word : List ℕ → Word × List ℕ
word [] = ([], [])
word (c ∷ s) =
    let (w, rest) = word s in if is_space c || is_symbol c then ([], c ∷ s) else (c ∷ w, rest)

-- The case '>' of gettoken, on the bytes after it.
pub greater : List ℕ → ℕ × Word × List ℕ
unfolding skip
greater [] = (62, 62 ∷ [], [])
greater (d ∷ u) = if d == 62 then (43, 62 ∷ 62 ∷ [], skip u) else (62, 62 ∷ [], skip (d ∷ u))

-- The switch of gettoken on the byte `c`, with the bytes after it.
pub token : ℕ → List ℕ → ℕ × Word × List ℕ
unfolding greater word
token c t =
    let (w, rest) = word (c ∷ t) in
    if c == 124 || (c == 40 || (c == 41 || (c == 59 || (c == 38 || c == 60))))
    then (c, c ∷ [], skip t)
    else if c == 62
    then greater t
    else (97, w, skip rest)

-- gettoken: its answer, the bytes from q to eq, and the rest.
pub gettoken : List ℕ → ℕ × Word × List ℕ
unfolding skip token
gettoken s = elim (skip s) [ [] ↦ (0, [], []) | c ∷ t ↦ token c t ]

-- strchr(toks, c), for a byte that is not 0
pub member : ℕ → List ℕ → Bool
member c [] = false
member c (t ∷ toks) = c == t || member c toks

-- peek: its answer, and the rest.
pub peek : List ℕ → List ℕ → Bool × List ℕ
unfolding member skip
peek s toks = elim (skip s) [ [] ↦ (false, []) | c ∷ t ↦ (member c toks, c ∷ t) ]

-- A command with redirections, the first the innermost.
abbrev pub Redirs : Type 0
Redirs = List (Word × ℕ × ℕ)

pub wrap : Cmd → Redirs → Cmd
wrap cmd [] = cmd
wrap cmd ((file, mode, fd) ∷ rs) = wrap (redir cmd file mode fd) rs

-- The redirection that a token stands for: O_RDONLY, or O_WRONLY | O_CREATE, with O_TRUNC for >.
abbrev pub redirection : ℕ → Word → Redirs
redirection tok file =
    if tok == 60
    then (file, 0, 0) ∷ []
    else if tok == 62
    then (file, 1537, 1) ∷ []
    else if tok == 43
    then (file, 513, 1) ∷ []
    else []

-- The loop of parseredirs, with fuel: what it wraps the command in.
pub parseredirs : ℕ → List ℕ → Outcome (Redirs × List ℕ)
unfolding peek gettoken
parseredirs zero s = no_fuel
parseredirs (suc k) s =
    let (more, s₁) = peek s (60 ∷ 62 ∷ []) in
    let (tok, _, s₂) = gettoken s₁ in
    let (tok', file, s₃) = gettoken s₂ in
    if not more
    then ok ([], s₁)
    else if not (tok' == 97)
    then panic
    else parseredirs k s₃ >>= λ (rs, s₄). ok (redirection tok file ++ rs, s₄)

-- MAXARGS
abbrev pub maxargs : ℕ
maxargs = 10

-- The loop of parseexec, with fuel; `argc` words are there already.
pub parseargs : ℕ → ℕ → List ℕ → Outcome (List Word × Redirs × List ℕ)
unfolding peek gettoken
parseargs zero argc s = no_fuel
parseargs (suc k) argc s =
    let (stop, s₁) = peek s (124 ∷ 41 ∷ 38 ∷ 59 ∷ []) in
    let (tok, w, s₂) = gettoken s₁ in
    if stop
    then ok ([], [], s₁)
    else if tok == 0
    then ok ([], [], s₂)
    else if not (tok == 97)
    then panic
    else if leb maxargs (argc + 1)
    then panic
    else parseredirs (suc (length s₂)) s₂ >>= λ (rs, s₃).
        parseargs k (argc + 1) s₃ >>= λ (ws, rs', s₄). ok (w ∷ ws, rs ++ rs', s₄)

-- parseblock, parseexec and parsepipe, over `line`, the parseline that they call.
module _ (line : List ℕ → Outcome (Cmd × List ℕ)) where
  pub parseblock : List ℕ → Outcome (Cmd × List ℕ)
  unfolding peek gettoken wrap
  parseblock s =
      let (starts, s₁) = peek s (40 ∷ []) in
      let (_, _, s₂) = gettoken s₁ in
      if not starts
      then panic
      else line s₂ >>= λ (cmd, s₃).
          let (closes, s₄) = peek s₃ (41 ∷ []) in
          let (_, _, s₅) = gettoken s₄ in
          if not closes
          then panic
          else parseredirs (suc (length s₅)) s₅ >>= λ (rs, s₆). ok (wrap cmd rs, s₆)

  pub parseexec : List ℕ → Outcome (Cmd × List ℕ)
  unfolding peek wrap
  parseexec s =
      let (block, s₁) = peek s (40 ∷ []) in
      if block
      then parseblock s₁
      else parseredirs (suc (length s₁)) s₁ >>= λ (rs, s₂).
          parseargs (suc (length s₂)) 0 s₂ >>= λ (ws, rs', s₃). ok (wrap (exec ws) (rs ++ rs'), s₃)

  pub parsepipe : ℕ → List ℕ → Outcome (Cmd × List ℕ)
  unfolding peek gettoken
  parsepipe zero s = no_fuel
  parsepipe (suc k) s = parseexec s >>= λ (cmd, s₁).
      let (more, s₂) = peek s₁ (124 ∷ []) in
      let (_, _, s₃) = gettoken s₂ in
      if not more then ok (cmd, s₂) else parsepipe k s₃ >>= λ (right, s₄). ok (pipe cmd right, s₄)

-- while (peek(ps, es, "&")) of parseline, with fuel.
pub parsebacks : ℕ → Cmd → List ℕ → Outcome (Cmd × List ℕ)
unfolding peek gettoken
parsebacks zero cmd s = no_fuel
parsebacks (suc k) cmd s =
    let (more, s₁) = peek s (38 ∷ []) in
    let (_, _, s₂) = gettoken s₁ in if not more then ok (cmd, s₁) else parsebacks k (back cmd) s₂

pub parseline : ℕ → List ℕ → Outcome (Cmd × List ℕ)
unfolding peek gettoken
parseline zero s = no_fuel
parseline (suc k) s = parsepipe (parseline k) (suc (length s)) s >>= λ (cmd, s₁).
    parsebacks (suc (length s₁)) cmd s₁ >>= λ (cmd', s₂).
    let (more, s₃) = peek s₂ (59 ∷ []) in
    let (_, _, s₄) = gettoken s₃ in
    if not more then ok (cmd', s₃) else parseline k s₄ >>= λ (right, s₅). ok (list cmd' right, s₅)

-- Each call of parseline by another is after a token, so the length of the input is enough.
pub parsecmd : List ℕ → Outcome Cmd
unfolding peek
parsecmd s = parseline (suc (length s)) s >>= λ (cmd, rest).
    if length (peek rest []).1 == 0 then ok cmd else panic
