-- ===== src/Fs/Itable/Unique.antt =====
-- iget of kernel/fs.c: an inode has one entry of the table.
use native.Mathlib.Decide.{ℕ_discrete}
use os_spring.Prelude.{
  ℕ, zero, suc, ◌+◌, ◌<◌, ◌≡◌, ◌⊎◌, inl, inr, refl, sym, subst, ap, ◌∙◌, List, [], ◌∷◌, true, false,
  Option, none, some, some-injective, arith, get_elem?, set, get_elem?-set_self, get_elem?-set_ne,
  ◌==◌, Bool-cases, Option-cases, Outcome, ok, panic,
}
use os_spring.Fs.{Inode, Fs}
use os_spring.Fs.Itable.{put_inode, holds, kept_slot, iget_from, claim, idup, iget}

-- No two entries in use are of one inode.
abbrev pub Unique : List Inode → Type 0
Unique t =
    (i j : ℕ) (a b : Inode)
    → get_elem? t i ≡ some a
    → get_elem? t j ≡ some b
    → holds b.dev b.inum a ≡ true
    → 0 < b.ref
    → i ≡ j

module _ (dev inum : ℕ) where
  kept_slot-some :
      (empty : Option ℕ) (i n : ℕ) (ip : Inode)
      → kept_slot empty i ip ≡ some n
      → (empty ≡ some n) ⊎ ((n ≡ i) × (ip.ref ≡ 0))
  kept_slot-some none i n ip e = inr (ground (arith, e))
  kept_slot-some (some x) i n ip e = inl e

  kept_slot-free :
      (empty : Option ℕ) (i : ℕ) (ip : Inode)
      → ip.ref ≡ 0
      → (n : ℕ) × (kept_slot empty i ip ≡ some n)
  kept_slot-free none i ip e = (i, ground (arith, e))
  kept_slot-free (some x) i ip e = (x, refl)

  in_tail :
      (x ip : Inode) (t : List Inode) (n : ℕ)
      → get_elem? (x ∷ t) n ≡ some ip
      → (x ≡ ip) ⊎ ((m : ℕ) × (get_elem? t m ≡ some ip))
  in_tail x ip t zero e = inl (some-injective x ip e)
  in_tail x ip t (suc n) e = inr (n, e)

  -- What the loop of iget finds, from index `i` on.
  record Scans (i : ℕ) (empty : Option ℕ) (t : List Inode) (r : Option ℕ × Option ℕ) : Type 0 where
    hit :
        (n : ℕ)
        → r.0 ≡ some n
        → (k : ℕ) × (n ≡ i + k)
          × (ip : Inode) × (get_elem? t k ≡ some ip)
          × (holds dev inum ip ≡ true)
    missed : r.0 ≡ none → (n : ℕ) (ip : Inode) → get_elem? t n ≡ some ip → holds dev inum ip ≡ false
    free_slot :
        (n : ℕ)
        → r.0 ≡ none
        → r.1 ≡ some n
        → (empty ≡ some n)
          ⊎ ((k : ℕ) × (n ≡ i + k) × (ip : Inode) × (get_elem? t k ≡ some ip) × (ip.ref ≡ 0))
    keeps : (n : ℕ) → r.0 ≡ none → empty ≡ some n → r.1 ≡ some n
    full : r.0 ≡ none → r.1 ≡ none → (n : ℕ) (ip : Inode) → get_elem? t n ≡ some ip → 0 < ip.ref

  later :
      (i : ℕ) (empty : Option ℕ) (x : Inode) (t : List Inode) (r : Option ℕ × Option ℕ)
      → holds dev inum x ≡ false
      → Scans (i + 1) (kept_slot empty i x) t r
      → Scans i empty (x ∷ t) r
  later i empty x t r other rest = record {
    hit = λ n e. let (k, at, ip, here, h) = rest.hit n e in (suc k, omega (arith, at), ip, here, h);
    missed = λ e n ip at. elim (in_tail x ip t n at) [
      | inl same ↦ subst (λ y. holds dev inum y ≡ false) same other
      | inr (m, at') ↦ rest.missed e m ip at'
    ];
    free_slot = λ n e e'. elim (rest.free_slot n e e') [
      | inl kept ↦ elim (kept_slot-some empty i n x kept) [
        | inl old ↦ inl old
        | inr (same, free) ↦ inr (0, omega (arith, same), x, refl, free)
      ]
      | inr (k, at, ip, here, free) ↦ inr (suc k, omega (arith, at), ip, here, free)
    ];
    keeps = λ n e old. rest.keeps n e (rw old refl);
    full = λ e e' n ip at. elim (in_tail x ip t n at) [
      | inl same ↦ elim (Bool-cases (x.ref == 0)) [
        | inl free ↦
            let (m, kept) = kept_slot-free empty i x (ground (arith, free)) in
            cc (sym e' ∙ rest.keeps m e kept)
        | inr used ↦ subst (λ (y : Inode). 0 < y.ref) same (ground (arith, used))
      ]
      | inr (m, at') ↦ rest.full e e' m ip at'
    ];
  }

  iget_from-Scans :
      (i : ℕ) (empty : Option ℕ) (t : List Inode) → Scans i empty t (iget_from dev inum i empty t)
  unfolding iget_from
  iget_from-Scans i empty [] = record {
    hit = λ n e. cc e;
    missed = λ e n ip at. cc at;
    free_slot = λ n e e'. inl e';
    keeps = λ n e old. old;
    full = λ e e' n ip at. cc at;
  }
  iget_from-Scans i empty (ip ∷ t) = elim (Bool-cases (holds dev inum ip)) [
    | inl here ↦ rw here (record {
      hit = λ n e. (0, ground (arith, some-injective i n e), ip, refl, here);
      missed = λ e. cc e;
      free_slot = λ n e. cc e;
      keeps = λ n e old. old;
      full = λ e. cc e;
    })
    | inr other ↦ rw other (
        later i empty ip t (iget_from dev inum (i + 1) (kept_slot empty i ip) t) other
          (iget_from-Scans (i + 1) (kept_slot empty i ip) t))
  ]

  -- A table with entry `i` made one of the inode, where it was one before or no entry was.
  set-Unique :
      (i : ℕ) (old new : Inode) (t : List Inode)
      → Unique t
      → get_elem? t i ≡ some old
      → (new.dev ≡ dev) × (new.inum ≡ inum) × (0 < new.ref)
      → ((j : ℕ) (ip : Inode) → get_elem? t j ≡ some ip → holds dev inum ip ≡ true → j ≡ i)
      → Unique (set t i new)
  set-Unique i old new t u at is only j k a b at_j at_k same used =
      let here = get_elem?-set_self t i old new at in
      elim (ℕ_discrete i j) [
        | yes ij ↦ elim (ℕ_discrete i k) [
          | yes ik ↦ sym ij ∙ ik
          | no ik ↦
              let new_a : new ≡ a =
                some-injective new a (sym here ∙ ap (get_elem? (set t i new)) ij ∙ at_j) in
              let at_k' = sym (get_elem?-set_ne t i k new ik) ∙ at_k in
              let same' = subst (λ x. holds b.dev b.inum x ≡ true) (sym new_a) same in
              sym ij ∙ sym (only k b at_k' (ground (arith, is, same', used)))
        ]
        | no ij ↦ elim (ℕ_discrete i k) [
          | yes ik ↦
              let new_b : new ≡ b =
                some-injective new b (sym here ∙ ap (get_elem? (set t i new)) ik ∙ at_k) in
              let at_j' = sym (get_elem?-set_ne t i j new ij) ∙ at_j in
              let same' = subst (λ (x : Inode). holds x.dev x.inum a ≡ true) (sym new_b) same in
              only j a at_j' (ground (arith, is, same')) ∙ ik
          | no ik ↦
              u j k a b (sym (get_elem?-set_ne t i j new ij) ∙ at_j)
                (sym (get_elem?-set_ne t i k new ik) ∙ at_k) same used
        ]
      ]

  -- What iget answers: the entry `i` of the inode with one reference more, or a free entry made that of
  -- the inode; or a panic, where every entry is of another inode and in use.
  abbrev pub Gets : Fs → Outcome (ℕ × Fs) → Type 0
  Gets fs r =
      ((i : ℕ) × (fs' : Fs) × (old : Inode) × (new : Inode) × (r ≡ ok (i, fs'))
        × (get_elem? fs.itable i ≡ some old)
        × (fs' ≡ put_inode i new fs)
        × ((holds dev inum old ≡ true) × (new ≡ record old { ref = old.ref + 1 })
            ⊎ (old.ref ≡ 0) × (new ≡ claim dev inum old))
        × Unique fs'.itable)
      ⊎ ((r ≡ panic)
          × ((n : ℕ) (ip : Inode)
              → get_elem? fs.itable n ≡ some ip
              → (holds dev inum ip ≡ false) × (0 < ip.ref)))

  -- iget in a table where no two entries in use are of one inode: it keeps the table so. It answers the
  -- inode's entry with one reference more, or else makes a free entry that of the inode with one
  -- reference and nothing read yet, changing no other entry; it panics only when every entry is in use
  -- and none is the inode's.
  pub iget-Unique : (fs : Fs) → Unique fs.itable → Gets fs (iget dev inum fs)
  unfolding iget idup
  iget-Unique fs u =
      let r = iget_from dev inum 0 none fs.itable in
      let scans = iget_from-Scans 0 none fs.itable in
      elim (Option-cases r.0) [
        | inl missed ↦ elim (Option-cases r.1) [
          | inl full ↦ inr (
            ground (arith, missed, full),
            λ n ip at. (scans.missed missed n ip at, scans.full missed full n ip at),
          )
          | inr (i, e) ↦ elim (scans.free_slot i missed e) [
            | inl absent ↦ cc absent
            | inr (k, at, ip, here, free) ↦
                let here' : get_elem? fs.itable i ≡ some ip =
                  ap (get_elem? fs.itable) (omega (arith, at)) ∙ here in
                inl (
                  i,
                  put_inode i (claim dev inum ip) fs,
                  ip,
                  claim dev inum ip,
                  ground (arith, missed, e, here'),
                  here',
                  refl,
                  inr (free, refl),
                  set-Unique i ip (claim dev inum ip) fs.itable u here' (refl, refl, omega arith)
                      λ j x at_x h. cc (sym (scans.missed missed j x at_x) ∙ h),
                )
          ]
        ]
        | inr (i, e) ↦
            let (k, at, ip, here, h) = scans.hit i e in
            let here' : get_elem? fs.itable i ≡ some ip =
              ap (get_elem? fs.itable) (omega (arith, at)) ∙ here in
            let new = record ip { ref = ip.ref + 1 } in
            inl (
              i,
              put_inode i new fs,
              ip,
              new,
              ground (arith, e, here'),
              here',
              refl,
              inl (h, refl),
              set-Unique i ip new fs.itable u here'
                  (ground (arith, h), ground (arith, h), omega arith)
                  λ j x at_x h'. u j i x ip at_x here' (ground (arith, h, h')) (ground (arith, h)),
            )
      ]
