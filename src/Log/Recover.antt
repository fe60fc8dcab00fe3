-- ===== src/Log/Recover.antt =====
-- recover_from_log of kernel/log.c, from a disk with an empty log and from one with a whole
-- transaction in its log.
use os_spring.Prelude.{
  ℕ, zero, suc, ◌+◌, ◌<◌, ◌≡◌, ◌≢◌, ◌⊎◌, inl, inr, refl, sym, subst, ap, [], ◌∷◌, true, false,
  arith, All,
}
use os_spring.Log.{
  Log, install_from, install_trans, read_head, write_blocks, write_head, recover_from_log,
}
use os_spring.Log.Disk.{
  Disk, IsHome, SameHome, Clean, Committed, Fits, logged_or_not, read_blocks_lem,
}
use os_spring.Log.Install.{Installing, install_from-Installing}

-- The memory of the log after a crash that left the disk at `d`.
abbrev pub reboot : Log → Disk → Log
reboot s d = record s {
  outstanding = 0;
  committing = false;
  n = 0;
  block = λ _. 0;
  pins = λ _. 0;
  view = d;
  disk = d;
  past = [];
}

-- Writing an empty header makes a clean disk.
write_head-Clean :
    (size : ℕ) (v : Disk) (s : Log)
    → 0 < size
    → s.n ≡ 0
    → SameHome s.start size s.disk v
    → Clean s.start size v (write_head s).disk
unfolding write_head write_blocks
write_head-Clean size v s h e home =
    rw e (record { empty = ground arith; home = λ b hb. ground (arith, home b hb) })

past-write_head : (s : Log) → (write_head s).past ≡ (write_head s).disk ∷ s.past
unfolding write_head
past-write_head s = refl

module _ (start size n : ℕ) (block : ℕ → ℕ) (v : Disk) where
  -- The disks on the way of an installation: the transaction is in the log, or already home.
  abbrev pub OnTheWay : Disk → Type 0
  OnTheWay d = Committed start size n block v d ⊎ Clean start size v d

  -- After the last round every home block is the transaction's, on the disk and in the view.
  installed_home :
      (d : Disk)
      → ((i : ℕ) → i < n → d (block i) ≡ v (block i))
      → ((b : ℕ) → IsHome start size b → ((i : ℕ) → i < n → block i ≢ b) → d b ≡ v b)
      → SameHome start size d v
  installed_home d done others b hb = elim (logged_or_not n block b) [
    | inl (i, hi, e) ↦ subst (λ a. d a ≡ v a) e (done i hi)
    | inr absent ↦ others b hb absent
  ]

  -- From an installed transaction, clearing the header ends with a clean disk that has it.
  pub finish :
      (P : Disk → Type 0) (s : Log)
      → ((d : Disk) → Clean start size v d → P d)
      → 0 < size
      → Installing P start size n block v n s
      → let s' = write_head (record s { n = 0 }) in Clean start size v s'.disk × All P s'.past
  finish P s sound h w = (clean, rw (past-write_head (record s { n = 0 })) (sound _ clean, w.crash))
    where
      clean : Clean start size v (write_head (record s { n = 0 })).disk
      clean =
          subst (λ a. Clean a size v (write_head (record s { n = 0 })).disk) w.at_start
            (write_head-Clean size v (record s { n = 0 }) h refl
              (subst (λ a. SameHome a size s.disk v) (sym w.at_start)
                (installed_home s.disk w.done w.on_disk.others)))

  -- Recovery completes a committed transaction, through disks that hold it or have it home.
  pub recover-Committed :
      (s : Log) (d : Disk)
      → s.start ≡ start
      → Fits start size n block
      → Committed start size n block v d
      → let s' = recover_from_log (reboot s d) in Clean start size v s'.disk × All OnTheWay s'.past
  unfolding recover_from_log install_trans read_head
  recover-Committed s d e fits c =
      finish OnTheWay (install_from rounds true 0 (read_head (reboot s d))) (λ d' c'. inr c')
        (omega (arith, fits.0))
        (install_from-Installing OnTheWay start size n block v fits (λ d' c'. inl c') rounds 0 true
          (read_head (reboot s d)) rounds_n at_boot)
    where
      rounds : ℕ
      rounds = d s.start 0

      rounds_n : rounds + 0 ≡ n
      rounds_n = omega (arith, c.head_n, ap (λ a. d a 0) e)

      at_boot : Installing OnTheWay start size n block v 0 (read_head (reboot s d))
      at_boot = record {
        at_start = e;
        names = λ i hi. ground (
          arith,
          read_blocks_lem rounds 0 (d s.start) (λ _. 0) i,
          c.head_block i hi,
          rounds_n,
          ap (λ a. d a (i + 1)) e,
        );
        copies = c.copies;
        on_disk = c;
        done = λ i hi. absurd (omega arith);
        seen = λ i hi. absurd (omega arith);
        others = c.others;
        crash = tt;
      }

install_from_none : (k : ℕ) (s : Log) → k ≡ 0 → install_from k true 0 s ≡ s
unfolding install_from
install_from_none zero s e = refl
install_from_none (suc k) s e = absurd (omega arith)

recover_no_rounds :
    (s : Log) (d : Disk)
    → d s.start 0 ≡ 0
    → recover_from_log (reboot s d) ≡ write_head (record (read_head (reboot s d)) { n = 0 })
unfolding recover_from_log install_trans read_head
recover_no_rounds s d e =
    ap (λ (t : Log). write_head (record t { n = 0 }))
      (install_from_none (d s.start 0) (read_head (reboot s d)) e)

-- Recovery of a clean disk leaves every home block as it was.
pub recover-Clean :
    (size : ℕ) (v : Disk) (s : Log) (d : Disk)
    → 0 < size
    → Clean s.start size v d
    → let s' = recover_from_log (reboot s d) in
      Clean s.start size v s'.disk × All (Clean s.start size v) s'.past
unfolding read_head
recover-Clean size v s d h c =
    subst (λ (t : Log). Clean s.start size v t.disk × All (Clean s.start size v) t.past)
      (sym (recover_no_rounds s d c.empty)) (clean, rw (past-write_head t₀) (clean, tt))
  where
    t₀ : Log
    t₀ = record (read_head (reboot s d)) { n = 0 }

    clean : Clean s.start size v (write_head t₀).disk
    clean = write_head-Clean size v t₀ h refl c.home
