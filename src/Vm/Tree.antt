-- ===== src/Vm/Tree.antt =====
-- The page table of kernel/vm.c as a map from page numbers to entries, and what one round of walk
-- does to it. `Tree` says that no page-table page is shared.
use os_spring.Prelude.{
  ℕ, ◌≡◌, inl, inr, refl, ap, ◌∙◌, Bool, true, false, Option, none, some, Bool-cases, if◌then◌else◌,
}
use os_spring.Vm.{Pte, pte2pa, px2, px1, px0}

-- What a page is in a page table: its root, the table under an entry of the root, the table under
-- an entry of that, or none of these.
pub data Place : Type 0 where
  top : Place
  mid : ℕ → Place
  low : ℕ → ℕ → Place
  other : Place

abbrev pub is_table : Place → Bool
is_table other = false
is_table _ = true

abbrev pub is_upper : Place → Bool
is_upper top = true
is_upper (mid i) = true
is_upper _ = false

-- The place of the page under an entry.
abbrev pub child : Place → ℕ → Place
child top i = mid i
child (mid i) j = low i j
child _ _ = other

-- What an entry leads to, if it is valid.
abbrev pub through {ℓ} : {A : Type ℓ} → Pte → (ℕ → Option A) → Option A
through e k = if e.flags.v then k (pte2pa e) else none

-- The entry of a page at the lowest level, if it is valid; and those that walk comes to from a page
-- of the middle and of the highest level.
abbrev pub at_low : (ℕ → ℕ → Pte) → ℕ → ℕ → Option Pte
at_low t c q = through (t q c) (λ _. some (t q c))

abbrev pub at_mid : (ℕ → ℕ → Pte) → ℕ → ℕ → ℕ → Option Pte
at_mid t b c p = through (t p b) (at_low t c)

-- The entry that maps an address, if it is mapped.
abbrev pub mapping : ℕ → (ℕ → ℕ → Pte) → ℕ → Option Pte
mapping root t va = through (t root (px2 va)) (at_mid t (px1 va) (px0 va))

-- Each page-table page has one place.
pub record Places (root : ℕ) (place : ℕ → Place) (t : ℕ → ℕ → Pte) : Type 0 where
  pub at_root : place root ≡ top
  pub at_child :
      (p i : ℕ)
      → is_upper (place p) ≡ true
      → (t p i).flags.v ≡ true
      → place (pte2pa (t p i)) ≡ child (place p) i

pub upper_table : (c : Place) → is_upper c ≡ true → is_table c ≡ true
upper_table top h = refl
upper_table (mid i) h = refl
upper_table (low i j) h = refl
upper_table other h = h

module _ (root : ℕ) (place : ℕ → Place) (t t' : ℕ → ℕ → Pte) (tree : Places root place t)
    (kept : (a j : ℕ) → is_table (place a) ≡ true → (t a j).flags.v ≡ true → t' a j ≡ t a j)
    (bare : (a j k : ℕ)
      → is_upper (place a) ≡ true
      → (t a j).flags.v ≡ false
      → (t' a j).flags.v ≡ true
      → (t' (pte2pa (t' a j)) k).flags.v ≡ false)
    (leaves : (a j : ℕ)
      → is_table (place a) ≡ true
      → is_upper (place a) ≡ false
      → t' a j ≡ t a j) where
  same_low : (c q i j : ℕ) → place q ≡ low i j → at_low t' c q ≡ at_low t c q
  same_low c q i j e =
      ap (λ (x : Pte). through x (λ _. some x)) (leaves q c (ap is_table e) (ap is_upper e))

  same_through :
      (a j : ℕ) (k k' : ℕ → Option Pte)
      → is_upper (place a) ≡ true
      → ((t a j).flags.v ≡ true → k' (pte2pa (t a j)) ≡ k (pte2pa (t a j)))
      → ((q : ℕ) → ((n : ℕ) → (t' q n).flags.v ≡ false) → k' q ≡ none)
      → through (t' a j) k' ≡ through (t a j) k
  same_through a j k k' up same empty = elim (Bool-cases (t a j).flags.v) [
    | inl v ↦ ap (λ (e : Pte). through e k') (kept a j (upper_table (place a) up) v) ∙ rw v (same v)
    | inr n ↦ elim (Bool-cases (t' a j).flags.v) [
      | inl y ↦ rw (n, y) (empty (pte2pa (t' a j)) (λ m. bare a j m up n y))
      | inr n' ↦ rw (n, n') refl
    ]
  ]

  empty_low : (c q : ℕ) → ((n : ℕ) → (t' q n).flags.v ≡ false) → at_low t' c q ≡ none
  empty_low c q h = rw (h c) refl

  empty_mid : (b c q : ℕ) → ((n : ℕ) → (t' q n).flags.v ≡ false) → at_mid t' b c q ≡ none
  empty_mid b c q h = rw (h b) refl

  same_mid : (b c p i : ℕ) → place p ≡ mid i → at_mid t' b c p ≡ at_mid t b c p
  same_mid b c p i e =
      same_through p b (at_low t c) (at_low t' c) (ap is_upper e)
        (λ v. same_low c _ i b (tree.at_child p b (ap is_upper e) v ∙ ap (λ x. child x b) e))
        (λ q h. empty_low c q h)

  -- New empty page-table pages change no mapping.
  pub same_mapping : (va : ℕ) → mapping root t' va ≡ mapping root t va
  same_mapping va =
      same_through root (px2 va) (at_mid t (px1 va) (px0 va)) (at_mid t' (px1 va) (px0 va))
        (ap is_upper tree.at_root)
        (λ v. same_mid (px1 va) (px0 va) _ (px2 va) (
          tree.at_child root (px2 va) (ap is_upper tree.at_root) v
          ∙ ap (λ x. child x (px2 va)) tree.at_root))
        (λ q h. empty_mid (px1 va) (px0 va) q h)
