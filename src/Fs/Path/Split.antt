-- ===== src/Fs/Path/Split.antt =====
-- skipelem of kernel/fs.c, called again and again as namex does, takes a path apart.
use os_spring.Prelude.{
  ℕ, zero, suc, ◌≤◌, ◌<◌, ◌≡◌, ◌≢◌, inl, inr, refl, sym, ◌∙◌, List, [], ◌∷◌, ◌++◌, map, true, false,
  Option, none, some, arith, All, length, take, length-append, ◌==◌, Bool-cases,
}
use os_spring.Fs.Path.{slash, dirsiz, skip_slashes, element, skipelem}

-- The names that the loop of namex goes through, with fuel.
pub names : ℕ → List ℕ → Option (List (List ℕ))
names zero path = none
names (suc k) path = elim (skipelem path) [
  | none ↦ some []
  | some (name, rest) ↦ elim (names k rest) [ none ↦ none | some ns ↦ some (name ∷ ns) ]
]

-- A name is not empty and has no slash.
abbrev IsName : List ℕ → Type 0
IsName n = (0 < length n) × All (λ c. c ≢ slash) n

-- The path of names, with a slash before each.
abbrev pub path_of : List (List ℕ) → List ℕ
path_of [] = []
path_of (n ∷ ns) = slash ∷ n ++ path_of ns

element-names :
    (n : List ℕ) (ns : List (List ℕ))
    → All (λ c. c ≢ slash) n
    → element (n ++ path_of ns) ≡ (n, path_of ns)
unfolding element
element-names [] [] h = refl
element-names [] (m ∷ ns) h = refl
element-names (c ∷ n) ns h =
    let other : (c == slash) ≡ false = ground (arith, h.0) in
    rw (other, element-names n ns h.1) refl

skipelem-path_of :
    (n : List ℕ) (ns : List (List ℕ))
    → IsName n
    → skipelem (path_of (n ∷ ns)) ≡ some (take dirsiz n, skip_slashes (path_of ns))
unfolding skipelem skip_slashes
skipelem-path_of [] ns h = absurd (omega (arith, h.0))
skipelem-path_of (c ∷ n) ns h =
    let other : (c == slash) ≡ false = ground (arith, h.1.0) in
    let split : element (c ∷ n ++ path_of ns) ≡ (c ∷ n, path_of ns) =
      element-names (c ∷ n) ns h.1 in
    rw (skipelem, other, split) refl

skipelem-slash : (c : ℕ) (path : List ℕ) → (c == slash) ≡ true → skipelem (c ∷ path) ≡ skipelem path
unfolding skipelem skip_slashes
skipelem-slash c path s = rw (skipelem, s) refl

-- A leading slash makes no difference to skipelem.
skipelem-skip_slashes : (path : List ℕ) → skipelem (skip_slashes path) ≡ skipelem path
unfolding skipelem skip_slashes
skipelem-skip_slashes [] = refl
skipelem-skip_slashes (c ∷ path) = elim (Bool-cases (c == slash)) [
  | inl s ↦ rw s (skipelem-skip_slashes path ∙ sym (skipelem-slash c path s))
  | inr other ↦ rw other refl
]

names-skip_slashes : (k : ℕ) (path : List ℕ) → names k (skip_slashes path) ≡ names k path
unfolding names
names-skip_slashes zero path = refl
names-skip_slashes (suc k) path = rw (names, skipelem-skip_slashes path) refl

names_step :
    (k : ℕ) (path name rest : List ℕ) (ns : List (List ℕ))
    → skipelem path ≡ some (name, rest)
    → names k rest ≡ some ns
    → names (suc k) path ≡ some (name ∷ ns)
unfolding names
names_step k path name rest ns e e' = rw (names, e, e') refl

names_more :
    (k : ℕ) (ns : List (List ℕ))
    → All IsName ns
    → length ns < k
    → names k (path_of ns) ≡ some (map (take dirsiz) ns)
unfolding names skipelem skip_slashes
names_more zero ns h l = absurd (omega (arith, l))
names_more (suc k) [] h l = refl
names_more (suc k) (n ∷ ns) h l =
    names_step k (path_of (n ∷ ns)) (take dirsiz n) (skip_slashes (path_of ns))
      (map (take dirsiz) ns) (skipelem-path_of n ns h.0)
      (names-skip_slashes k (path_of ns) ∙ names_more k ns h.1 (omega (arith, l)))

length-path_of : (ns : List (List ℕ)) → length ns ≤ length (path_of ns)
length-path_of [] = omega arith
length-path_of (n ∷ ns) = omega (arith, length-append n (path_of ns), length-path_of ns)

-- The loop of namex, on the path made of names without slashes, a slash before each, goes through these
-- names, each cut to DIRSIZ bytes, and ends within as many rounds as namex_from has fuel for.
pub names-path_of :
    (ns : List (List ℕ))
    → All IsName ns
    → names (suc (length (path_of ns))) (path_of ns) ≡ some (map (take dirsiz) ns)
names-path_of ns h = names_more (suc (length (path_of ns))) ns h (omega (arith, length-path_of ns))
