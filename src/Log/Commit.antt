-- ===== src/Log/Commit.antt =====
-- commit of kernel/log.c: a crash at any disk write leaves the transaction done or not begun.
use native.Mathlib.Decide.{ℕ_discrete}
use os_spring.Prelude.{
  ℕ, zero, suc, ◌+◌, ◌-◌, ◌<◌, ◌≡◌, ◌≢◌, ◌⊎◌, inl, inr, refl, sym, subst, ap, ◌∙◌, [], false, ◌&&◌,
  arith, All, All-map, ltb, leb, if◌then◌else◌,
}
use os_spring.Log.{
  Log, write, install_from, install_trans, write_head, recover_from_log, write_log, write_log_from,
  write_log_one, commit,
}
use os_spring.Log.Disk.{Disk, IsHome, SameHome, Clean, Committed, Fits, write_blocks_lem}
use os_spring.Log.Install.{Installing, install_from-Installing}
use os_spring.Log.Recover.{reboot, OnTheWay, finish, recover-Clean, recover-Committed}

-- A transaction in memory that may be committed: it fits, the log on the disk is empty, and the
-- cache differs from the disk in the logged home blocks alone.
pub record IsReady (s : Log) : Type 0 where
  pub fits : Fits s.start s.size s.n s.block
  pub empty : s.disk s.start 0 ≡ 0
  pub synced :
      (b : ℕ) → IsHome s.start s.size b → ((i : ℕ) → i < s.n → s.block i ≢ b) → s.disk b ≡ s.view b

n-write_head : (s : Log) → (write_head s).n ≡ s.n
unfolding write_head
n-write_head s = refl

module _ (o : Log) (ready : IsReady o) where
  open o use {start, size, n, block}

  -- The disks of a commit: before the header is written, and after.
  abbrev Passing : Disk → Type 0
  Passing d = Clean start size o.disk d ⊎ OnTheWay start size n block o.view d

  -- The state after `t` rounds of write_log.
  record Logging (t : ℕ) (s : Log) : Type 0 where
    at_start : s.start ≡ start
    same_n : s.n ≡ n
    names : s.block ≡ block
    home : SameHome start size s.view o.view
    copies : (i : ℕ) → i < t → s.view (start + i + 1) ≡ o.view (block i)
    logged : (i : ℕ) → i < t → s.disk (start + i + 1) ≡ o.view (block i)
    clean : Clean start size o.disk s.disk
    crash : All Passing s.past

  fits : Fits start size n block
  fits = ready.fits

  write_log_one-Logging :
      (t : ℕ) (s : Log) → t < n → Logging t s → Logging (t + 1) (write_log_one t s)
  unfolding write_log_one
  write_log_one-Logging t s h w = record {
    at_start = w.at_start;
    same_n = w.same_n;
    names = w.names;
    home = λ b hb. ground (arith, w.home b hb, w.at_start, fits.0);
    copies = λ i hi. elim (ℕ_discrete i t) [
      | yes e ↦ rw e (ground (arith, source, w.at_start))
      | no ne ↦ ground (arith, w.copies i (omega arith), w.at_start)
    ];
    logged = λ i hi. elim (ℕ_discrete i t) [
      | yes e ↦ rw e (ground (arith, source, w.at_start))
      | no ne ↦ ground (arith, w.logged i (omega arith), w.at_start)
    ];
    clean = clean;
    crash = (inl clean, w.crash);
  }
    where
      source : s.view (s.block t) ≡ o.view (block t)
      source = ap (λ (f : ℕ → ℕ). s.view (f t)) w.names ∙ w.home (block t) (fits.1 t h)

      clean : Clean start size o.disk (write_log_one t s).disk
      clean = record {
        empty = ground (arith, w.clean.empty, w.at_start);
        home = λ b hb. ground (arith, w.clean.home b hb, w.at_start, fits.0);
      }

  write_log_from-Logging :
      (k t : ℕ) (s : Log) → k + t ≡ n → Logging t s → Logging n (write_log_from k t s)
  unfolding write_log_from
  write_log_from-Logging zero t s e w =
      let e' : t ≡ n = omega arith in subst (λ m. Logging m s) e' w
  write_log_from-Logging (suc k) t s e w =
      write_log_from-Logging k (t + 1) (write_log_one t s) (omega arith)
        (write_log_one-Logging t s (omega arith) w)

  -- Writing the header commits what write_log has copied.
  write_head-Installing :
      (s : Log)
      → 0 < n
      → Logging n s
      → Installing Passing start size n block o.view 0 (write_head s)
  unfolding write_head
  write_head-Installing s pos w = record {
    at_start = w.at_start;
    names = λ i hi. ap (λ (f : ℕ → ℕ). f i) w.names;
    copies = λ i hi. ground (arith, w.copies i hi, w.at_start);
    on_disk = committed;
    done = λ i hi. absurd (omega arith);
    seen = λ i hi. absurd (omega arith);
    others = λ b hb ne. ground (arith, w.home b hb, w.at_start, fits.0);
    crash = (inr (inl committed), w.crash);
  }
    where
      header :
          (j : ℕ)
          → (write_head s).disk start j ≡ (
              if ltb 0 j && leb j (0 + s.n)
              then s.block (j - 1)
              else write (s.view s.start) 0 s.n j)
      header j =
          ap (λ a. (write_head s).disk a j) (sym w.at_start)
          ∙ ground (arith, write_blocks_lem s.n 0 s.block (write (s.view s.start) 0 s.n) j)

      committed : Committed start size n block o.view (write_head s).disk
      committed = record {
        head_n = header 0 ∙ w.same_n;
        head_block = λ i hi.
            header (i + 1) ∙ ground (arith, w.same_n, ap (λ (f : ℕ → ℕ). f i) w.names, ap s.block);
        copies = λ i hi. ground (arith, w.logged i hi, w.at_start);
        others =
            λ b hb ne. ground (arith, w.clean.home b hb, w.at_start, fits.0, ready.synced b hb ne);
      }

  -- What commit leaves behind, and the disks that it passes through.
  commit-Passing :
      o.past ≡ [] → Clean start size o.view (commit o).disk × All Passing (commit o).past
  unfolding commit install_trans write_log
  commit-Passing e = elim (ℕ_discrete n 0) [
    | yes z ↦ rw (nothing z) (
      record {
        empty = ready.empty;
        home = λ b hb. ready.synced b hb (λ i hi. absurd (omega arith));
      },
      subst (All Passing) (sym e) tt,
    )
    | no pos ↦ rw (something (omega arith)) (
        finish start size n block o.view Passing installed (λ d c. inr (inr c))
          (omega (arith, fits.0))
          (install_from-Installing Passing start size n block o.view fits (λ d c. inr (inl c)) n 0
            false headed (omega arith)
            (write_head-Installing logged (omega arith)
              (write_log_from-Logging n 0 o (omega arith) begun))))
  ]
    where
      logged : Log
      logged = write_log_from n 0 o

      headed : Log
      headed = write_head logged

      installed : Log
      installed = install_from n false 0 headed

      begun : Logging 0 o
      begun = record {
        at_start = refl;
        same_n = refl;
        names = refl;
        home = λ b hb. refl;
        copies = λ i hi. absurd (omega arith);
        logged = λ i hi. absurd (omega arith);
        clean = record { empty = ready.empty; home = λ b hb. refl };
        crash = subst (All Passing) (sym e) tt;
      }

      nothing : n ≡ 0 → commit o ≡ o
      nothing z = ground arith

      something : 0 < n → commit o ≡ write_head (record installed { n = 0 })
      something h =
          ground arith
          ∙ ap (λ (k : ℕ). write_head (record (install_from k false 0 headed) { n = 0 }))
              (n-write_head logged ∙ (write_log_from-Logging n 0 o (omega arith) begun).same_n)

  -- Recovery from a disk on the way restores the transaction whole, or what was there before it.
  Passing-restores :
      (d : Disk)
      → Passing d
      → let d' = (recover_from_log (reboot o d)).disk in
        SameHome start size d' o.disk ⊎ SameHome start size d' o.view
  Passing-restores d (inl c) = inl (recover-Clean size o.disk o d (omega (arith, fits.0)) c).0.home
  Passing-restores d (inr (inl c)) =
      inr (recover-Committed start size n block o.view o d refl fits c).0.home
  Passing-restores d (inr (inr c)) =
      inr (recover-Clean size o.view o d (omega (arith, fits.0)) c).0.home

  -- The disks of a recovery are on the way too, so a crash in it changes nothing.
  Passing-recover : (d : Disk) → Passing d → All Passing (recover_from_log (reboot o d)).past
  Passing-recover d (inl c) =
      All-map _ (λ d' c'. inl c') (recover-Clean size o.disk o d (omega (arith, fits.0)) c).1
  Passing-recover d (inr (inl c)) =
      All-map _ (λ d' c'. inr c') (recover-Committed start size n block o.view o d refl fits c).1
  Passing-recover d (inr (inr c)) =
      All-map _ (λ d' c'. inr (inr c')) (recover-Clean size o.view o d (omega (arith, fits.0)) c).1

  -- When a commit runs to its end, every block outside the log area is on the disk as the cache
  -- had it, and the log on the disk is empty.
  pub commit_durable :
      o.past ≡ [] → SameHome start size (commit o).disk o.view × ((commit o).disk start 0 ≡ 0)
  commit_durable e = let c = (commit-Passing e).0 in (c.home, c.empty)

  -- Whichever disk write of a commit is the last one before a crash, recovery leaves the blocks
  -- outside the log area all as they were on the disk before the commit, or all as the cache had
  -- them; and so it does if it is cut short at any of its own writes and started again.
  pub commit_atomic :
      o.past ≡ []
      → let Restores = λ (d : Disk).
        let d' = (recover_from_log (reboot o d)).disk in
        SameHome start size d' o.disk ⊎ SameHome start size d' o.view in
        All (λ d. Restores d × All Restores (recover_from_log (reboot o d)).past) (commit o).past
  commit_atomic e =
      All-map _ (λ d c. (Passing-restores d c, All-map _ Passing-restores (Passing-recover d c)))
        (commit-Passing e).1
