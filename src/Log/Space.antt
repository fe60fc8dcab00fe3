-- ===== src/Log/Space.antt =====
-- The reservation of log space by begin_op and log_write of kernel/log.c.
use native.Mathlib.Decide.{ℕ_discrete}
use os_spring.Prelude.{
  ℕ, zero, suc, ◌+◌, ◌-◌, ◌*◌, ◌≤◌, ◌<◌, ◌≡◌, inl, inr, refl, sym, ◌∙◌, List, [], ◌∷◌, true, false,
  some, arith, All, length, get_elem?, set, length-set, ok, panic,
}
use os_spring.Log.{
  Log, logsize, maxopblocks, begin_op, end_op, commit, log_write, write_head, write_log,
  write_log_from, write_log_one, install_from, install_one, install_trans,
}
use os_spring.Log.Absorb.{log_write-Absorbs}

abbrev sum : List ℕ → ℕ
sum [] = 0
sum (x ∷ xs) = x + sum xs

-- The operations under way, each with the number of blocks that it may still log, and the log
-- with room for all of these.
pub record IsReserved (left : List ℕ) (s : Log) : Type 0 where
  pub count : s.outstanding ≡ length left
  pub each : All (λ m. m ≤ maxopblocks) left
  pub room : s.n + sum left ≤ logsize

sum-le : (left : List ℕ) → All (λ m. m ≤ maxopblocks) left → sum left ≤ length left * maxopblocks
sum-le [] h = omega arith
sum-le (m ∷ left) h = omega (arith, sum-le left h.1)

-- begin_op reserves MAXOPBLOCKS blocks for the operation that it lets in.
begin_op-IsReserved :
    (left : List ℕ) (s s' : Log)
    → IsReserved left s
    → begin_op s ≡ some s'
    → IsReserved (maxopblocks ∷ left) s'
unfolding begin_op
begin_op-IsReserved left s s' v e = ground (arith, sum-le left v.each)

sum-set :
    (left : List ℕ) (i m : ℕ) → get_elem? left i ≡ some (suc m) → sum (set left i m) + 1 ≡ sum left
sum-set [] i m e = absurd (cc e)
sum-set (x ∷ left) zero m e = ground arith
sum-set (x ∷ left) (suc i) m e = omega (arith, sum-set left i m e)

abbrev Small : List ℕ → Type 0
Small left = All (λ m. m ≤ maxopblocks) left

Small-set :
    (left : List ℕ) (i m : ℕ) → get_elem? left i ≡ some (suc m) → Small left → Small (set left i m)
Small-set [] i m e h = tt
Small-set (x ∷ left) zero m e h = (ground arith, h.1)
Small-set (x ∷ left) (suc i) m e h = (h.0, Small-set left i m e h.1)

some_op : (left : List ℕ) (i m : ℕ) → get_elem? left i ≡ some m → 0 < length left
some_op [] i m e = absurd (cc e)
some_op (x ∷ left) i m e = omega arith

-- An operation that has logged fewer than its MAXOPBLOCKS blocks may log another: log_write does
-- not panic when the log area has a block more than LOGSIZE, for the header, and the other
-- operations keep their reservations.
log_write-IsReserved :
    (left : List ℕ) (i m b : ℕ) (s : Log)
    → IsReserved left s
    → get_elem? left i ≡ some (suc m)
    → logsize < s.size
    → (s' : Log) × (log_write b s ≡ ok s') × IsReserved (set left i m) s'
log_write-IsReserved left i m b s v e h =
    let fits : s.n < logsize = omega (arith, v.room, sum-set left i m e) in
    let w =
      log_write-Absorbs b s (omega (arith, v.count, some_op left i (suc m) e)) fits (omega arith) in
    (
      w.0,
      w.1,
      record {
        count = w.2.same_view.2 ∙ v.count ∙ sym (length-set left i m);
        each = Small-set left i m e v.each;
        room = elim w.2.place [
          | inl p ↦ omega (arith, p.1, v.room, sum-set left i m e)
          | inr p ↦ omega (arith, p.1, v.room, sum-set left i m e)
        ];
      },
    )

-- The log area that mkfs makes has LOGSIZE blocks (mkfs/mkfs.c:25), the header among them, so an
-- operation inside its reservation meets the panic of log_write when LOGSIZE - 1 blocks are logged.
log_write_panics : (b : ℕ) (s : Log) → s.size ≡ logsize → s.n ≡ logsize - 1 → log_write b s ≡ panic
unfolding log_write
log_write_panics b s e e' = ground arith

n-commit : (s : Log) → (commit s).n ≡ 0
unfolding commit write_head
n-commit s = ground arith

-- The reservation of one operation, dropped from the list.
abbrev drop_at : List ℕ → ℕ → List ℕ
drop_at [] i = []
drop_at (x ∷ xs) zero = xs
drop_at (x ∷ xs) (suc i) = x ∷ drop_at xs i

outstanding-write_log : (k t : ℕ) (s : Log) → (write_log_from k t s).outstanding ≡ s.outstanding
unfolding write_log_from write_log_one
outstanding-write_log zero t s = refl
outstanding-write_log (suc k) t s = outstanding-write_log k (t + 1) (write_log_one t s)

outstanding-install : (k t : ℕ) (s : Log) → (install_from k false t s).outstanding ≡ s.outstanding
unfolding install_from install_one
outstanding-install zero t s = refl
outstanding-install (suc k) t s = outstanding-install k (t + 1) (install_one false t s)

outstanding-commit : (s : Log) → (commit s).outstanding ≡ s.outstanding
unfolding commit write_head install_trans write_log
outstanding-commit s = ground (
  arith,
  outstanding-install (write_log s).n 0 (write_head (write_log s)),
  outstanding-write_log s.n 0 s,
)

length-drop_at :
    (left : List ℕ) (i : ℕ) → i < length left → length (drop_at left i) + 1 ≡ length left
length-drop_at [] i h = absurd (omega arith)
length-drop_at (x ∷ xs) zero h = omega arith
length-drop_at (x ∷ xs) (suc i) h = omega (arith, length-drop_at xs i (omega arith))

sum-drop_at : (left : List ℕ) (i : ℕ) → sum (drop_at left i) ≤ sum left
sum-drop_at [] i = omega arith
sum-drop_at (x ∷ xs) zero = omega arith
sum-drop_at (x ∷ xs) (suc i) = omega (arith, sum-drop_at xs i)

Small-drop_at : (left : List ℕ) (i : ℕ) → Small left → Small (drop_at left i)
Small-drop_at [] i h = tt
Small-drop_at (x ∷ xs) zero h = h.1
Small-drop_at (x ∷ xs) (suc i) h = (h.0, Small-drop_at xs i h.1)

-- end_op gives an operation's reservation back: it does not panic, and the last one commits, which
-- empties the log.
end_op-IsReserved :
    (left : List ℕ) (i : ℕ) (s : Log)
    → IsReserved left s
    → i < length left
    → s.committing ≡ false
    → (s' : Log) × (end_op s ≡ ok s')
      × IsReserved (drop_at left i) s'
      × (s'.committing ≡ false)
      × ((length left ≡ 1) → s'.n ≡ 0)
unfolding end_op
end_op-IsReserved left i s v h c = elim (ℕ_discrete s.outstanding 1) [
  | yes e ↦ (
    record final { committing = false },
    ground arith,
    record {
      count = omega (arith, outstanding-commit closing, length-drop_at left i h, v.count);
      each = Small-drop_at left i v.each;
      room = omega (
        arith,
        n-commit closing,
        length-drop_at left i h,
        v.count,
        sum-le (drop_at left i) (Small-drop_at left i v.each),
      );
    },
    refl,
    λ l. n-commit closing,
  )
  | no ne ↦ (
    record s { outstanding = s.outstanding - 1 },
    ground arith,
    record {
      count = omega (arith, length-drop_at left i h, v.count);
      each = Small-drop_at left i v.each;
      room = omega (arith, sum-drop_at left i, v.room);
    },
    c,
    λ l. absurd (ne (v.count ∙ l)),
  )
]
  where
    closing : Log
    closing = record s { outstanding = 0; committing = true }

    final : Log
    final = commit closing
