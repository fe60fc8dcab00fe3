-- ===== src/Log/Disk.antt =====
-- The states of the disk around a commit of kernel/log.c, and what recovery makes of them.
-- `Clean` is a disk with an empty log; `Committed` one whose log holds a whole transaction.
use native.Mathlib.Decide.{ℕ_discrete, dec_lt}
use os_spring.Prelude.{
  ℕ, zero, suc, ◌+◌, ◌-◌, ◌≤◌, ◌<◌, ◌≡◌, ◌≢◌, ◌⊎◌, inl, inr, ◌&&◌, arith, ltb, leb, if◌then◌else◌,
}
use os_spring.Log.{Block, write, read_blocks, write_blocks}

abbrev pub Disk : Type 0
Disk = ℕ → Block

-- The blocks outside the log area.
abbrev pub IsHome : ℕ → ℕ → ℕ → Type 0
IsHome start size b = (b < start) ⊎ (start + size ≤ b)

abbrev pub SameHome : ℕ → ℕ → Disk → Disk → Type 0
SameHome start size d v = (b : ℕ) → IsHome start size b → d b ≡ v b

module _ (start size : ℕ) where
  pub record Clean (v d : Disk) : Type 0 where
    pub empty : d start 0 ≡ 0
    pub home : SameHome start size d v

  -- The log copies of the `n` blocks `block i`.
  abbrev pub Copies : ℕ → (ℕ → ℕ) → Disk → Disk → Type 0
  Copies n block v d = (i : ℕ) → i < n → d (start + i + 1) ≡ v (block i)

  pub record Committed (n : ℕ) (block : ℕ → ℕ) (v d : Disk) : Type 0 where
    pub head_n : d start 0 ≡ n
    pub head_block : (i : ℕ) → i < n → d start (i + 1) ≡ block i
    pub copies : Copies n block v d
    pub others : (b : ℕ) → IsHome start size b → ((i : ℕ) → i < n → block i ≢ b) → d b ≡ v b

  -- What a transaction in memory satisfies: it fits in the log area and names home blocks.
  abbrev pub Fits : ℕ → (ℕ → ℕ) → Type 0
  Fits n block = (n < size) × ((i : ℕ) → i < n → IsHome start size (block i))

-- Either the block is logged, at an index below `n`, or it is not.
pub logged_or_not :
    (n : ℕ) (block : ℕ → ℕ) (b : ℕ)
    → ((i : ℕ) × (i < n) × (block i ≡ b)) ⊎ ((i : ℕ) → i < n → block i ≢ b)
logged_or_not zero block b = inr (λ i h. absurd (omega arith))
logged_or_not (suc n) block b = elim (ℕ_discrete (block n) b) [
  | yes e ↦ inl (n, omega arith, e)
  | no ne ↦ elim (logged_or_not n block b) [
    | inl (i, h, e) ↦ inl (i, omega arith, e)
    | inr none_below ↦ inr (λ i h. elim (dec_lt i n) [
      | yes lt ↦ none_below i lt
      | no ge ↦ let e : i ≡ n = omega arith in rw e ne
    ])
  ]
]

-- The loop of read_head reads the words of the header.
pub read_blocks_lem :
    (k i : ℕ) (hb : Block) (block : ℕ → ℕ) (j : ℕ)
    → read_blocks k i hb block j ≡ (if leb i j && ltb j (i + k) then hb (j + 1) else block j)
unfolding read_blocks
read_blocks_lem zero i hb block j = ground arith
read_blocks_lem (suc k) i hb block j =
    ground (arith, read_blocks_lem k (i + 1) hb (write block i (hb (i + 1))) j)

-- The loop of write_head writes them, and no other word.
pub write_blocks_lem :
    (k i : ℕ) (block : ℕ → ℕ) (hb : Block) (j : ℕ)
    → write_blocks k i block hb j ≡ (if ltb i j && leb j (i + k) then block (j - 1) else hb j)
unfolding write_blocks
write_blocks_lem zero i block hb j = ground arith
write_blocks_lem (suc k) i block hb j =
    ground (arith, write_blocks_lem k (i + 1) block (write hb (i + 1) (block i)) j)
