-- ===== src/Log/Tests.antt =====
-- Runs of the log of kernel/log.c on a transaction of two blocks.
use os_spring.Prelude.{
  ℕ, ◌≡◌, ◌⊎◌, refl, List, [], ◌∷◌, if◌then◌else◌, ◌==◌, arith, false, All, fun_ext,
}
use os_spring.Log.{Log, recover_from_log, commit}
use os_spring.Log.Disk.{Disk, SameHome}
use os_spring.Log.Recover.{reboot}
use os_spring.Log.Commit.{IsReady, commit_durable, commit_atomic}
use os_spring.Log.Space.{IsReserved}

-- The log area is the blocks 2 to 32, and the blocks 40 and 50 are logged: in the cache they hold
-- 7s, on the disk 1s.
abbrev two_blocks : Log
two_blocks = record {
  start = 2;
  size = 31;
  outstanding = 1;
  committing = false;
  dev = 1;
  n = 2;
  block = λ i. if i == 0 then 40 else 50;
  pins = λ b. 0;
  view = λ b i. if b == 2 then 0 else if b == 40 then 7 else if b == 50 then 7 else 1;
  disk = λ b i. if b == 2 then 0 else 1;
  past = [];
}

two_blocks-IsReady : IsReady two_blocks
two_blocks-IsReady = record {
  fits = (omega arith, λ i h. ground arith);
  empty = refl;
  synced = λ b h h'. fun_ext λ i. ground (arith, h' 0 (omega arith), h' 1 (omega arith));
}

commit_durable_example :
    SameHome 2 31 (commit two_blocks).disk two_blocks.view × ((commit two_blocks).disk 2 0 ≡ 0)
commit_durable_example = commit_durable two_blocks two_blocks-IsReady refl

abbrev Restores : Disk → Type 0
Restores d =
    let d' = (recover_from_log (reboot two_blocks d)).disk in
    SameHome 2 31 d' two_blocks.disk ⊎ SameHome 2 31 d' two_blocks.view

commit_atomic_example :
    All
      (λ d. Restores d × All Restores (recover_from_log (reboot two_blocks d)).past)
      (commit two_blocks).past
commit_atomic_example = commit_atomic two_blocks two_blocks-IsReady refl

abbrev eight_left : List ℕ
eight_left = 8 ∷ []

two_blocks-IsReserved : IsReserved eight_left two_blocks
two_blocks-IsReserved = record { count = refl; each = (omega arith, tt); room = omega arith }
