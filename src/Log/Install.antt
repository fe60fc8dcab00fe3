-- ===== src/Log/Install.antt =====
-- install_trans of kernel/log.c copies a committed transaction home, and every disk on the way
-- still holds the transaction.
use native.Mathlib.Decide.{ℕ_discrete}
use os_spring.Prelude.{
  ℕ, zero, suc, ◌+◌, ◌<◌, ◌≡◌, ◌≢◌, sym, subst, ap, ◌∙◌, fun_ext, Bool, true, false, arith, All,
}
use os_spring.Log.{Log, write, bunpin, install_one, install_from}
use os_spring.Log.Disk.{Disk, IsHome, Committed, Copies, Fits}

module _ (P : Disk → Type 0) (start size n : ℕ) (block : ℕ → ℕ) (v : Disk) where
  -- The state after `t` rounds.
  pub record Installing (t : ℕ) (s : Log) : Type 0 where
    pub at_start : s.start ≡ start
    pub names : (i : ℕ) → i < n → s.block i ≡ block i
    pub copies : Copies start size n block v s.view
    pub on_disk : Committed start size n block v s.disk
    pub done : (i : ℕ) → i < t → s.disk (block i) ≡ v (block i)
    pub seen : (i : ℕ) → i < t → s.view (block i) ≡ v (block i)
    pub others : (b : ℕ) → IsHome start size b → ((i : ℕ) → i < n → block i ≢ b) → s.view b ≡ v b
    pub crash : All P s.past

  module _ (fits : Fits start size n block)
      (sound : (d : Disk) → Committed start size n block v d → P d) where
    Committed-write :
        (d : Disk) (t : ℕ)
        → t < n
        → Committed start size n block v d
        → Committed start size n block v (write d (block t) (v (block t)))
    Committed-write d t h c = record {
      head_n = ground (arith, fits.1 t h, c.head_n);
      head_block = λ i hi. ground (arith, fits.1 t h, c.head_block i hi);
      copies = λ i hi. ground (arith, fits.1 t h, c.copies i hi);
      others = λ b hb ne. ground (arith, ne t h, c.others b hb ne);
    }

    -- What one round writes, to the view and to the disk.
    copied : (t : ℕ) (s : Log) → t < n → Installing t s → s.view (s.start + t + 1) ≡ v (block t)
    copied t s h w = ap (λ a. s.view (a + t + 1)) w.at_start ∙ w.copies t h

    new_view :
        (t : ℕ) (s : Log)
        → t < n
        → Installing t s
        → write s.view (s.block t) (s.view (s.start + t + 1)) ≡ write s.view (block t) (v (block t))
    new_view t s h w = rw (copied t s h w, w.names t h)

    new_disk :
        (t : ℕ) (s : Log)
        → t < n
        → Installing t s
        → write s.disk (s.block t) (write s.view (s.block t) (s.view (s.start + t + 1)) (s.block t))
          ≡ write s.disk (block t) (v (block t))
    new_disk t s h w =
        ap (λ (x : Disk). write s.disk (s.block t) (x (s.block t))) (new_view t s h w)
        ∙ ap (λ (b : ℕ). write s.disk b (write s.view (block t) (v (block t)) b)) (w.names t h)
        ∙ fun_ext λ b. ground arith

    bunpin-Installing : (t b : ℕ) (s : Log) → Installing t s → Installing t (bunpin b s)
    bunpin-Installing t b s w = record {
      at_start = w.at_start;
      names = w.names;
      copies = w.copies;
      on_disk = w.on_disk;
      done = w.done;
      seen = w.seen;
      others = w.others;
      crash = w.crash;
    }

    install_recovering-Installing :
        (t : ℕ) (s : Log) → t < n → Installing t s → Installing (t + 1) (install_one true t s)
    unfolding install_one
    install_recovering-Installing t s h w = record {
      at_start = w.at_start;
      names = w.names;
      copies =
          subst (Copies start size n block v) (sym (new_view t s h w))
            (λ i hi. ground (arith, fits.1 t h, w.copies i hi));
      on_disk = subst (Committed start size n block v) (sym (new_disk t s h w)) after;
      done =
          subst (λ (d : Disk). (i : ℕ) → i < t + 1 → d (block i) ≡ v (block i))
            (sym (new_disk t s h w)) (reached s.disk w.done);
      seen =
          subst (λ (d : Disk). (i : ℕ) → i < t + 1 → d (block i) ≡ v (block i))
            (sym (new_view t s h w)) (reached s.view w.seen);
      others =
          subst
            (λ (d : Disk).
              (b : ℕ) → IsHome start size b → ((i : ℕ) → i < n → block i ≢ b) → d b ≡ v b)
            (sym (new_view t s h w)) (λ b hb ne. ground (arith, ne t h, w.others b hb ne));
      crash = (subst P (sym (new_disk t s h w)) (sound _ after), w.crash);
    }
      where
        after : Committed start size n block v (write s.disk (block t) (v (block t)))
        after = Committed-write s.disk t h w.on_disk

        reached :
            (d : Disk)
            → ((i : ℕ) → i < t → d (block i) ≡ v (block i))
            → (i : ℕ) → i < t + 1
            → write d (block t) (v (block t)) (block i) ≡ v (block i)
        reached d below i hi = elim (ℕ_discrete i t) [
          | yes e ↦ rw e (ground arith)
          | no ne ↦ ground (arith, below i (omega arith), ap v)
        ]

    install_one-Installing :
        (r : Bool) (t : ℕ) (s : Log)
        → t < n
        → Installing t s
        → Installing (t + 1) (install_one r t s)
    unfolding install_one
    install_one-Installing true t s h w = install_recovering-Installing t s h w
    install_one-Installing false t s h w =
        bunpin-Installing (t + 1) (s.block t) (install_one true t s)
          (install_recovering-Installing t s h w)

    pub install_from-Installing :
        (k t : ℕ) (r : Bool) (s : Log)
        → k + t ≡ n
        → Installing t s
        → Installing n (install_from k r t s)
    unfolding install_from
    install_from-Installing zero t r s e w =
        let e' : t ≡ n = omega arith in subst (λ m. Installing m s) e' w
    install_from-Installing (suc k) t r s e w =
        install_from-Installing k (t + 1) r (install_one r t s) (omega arith)
          (install_one-Installing r t s (omega arith) w)
