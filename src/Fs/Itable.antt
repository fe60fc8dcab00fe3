-- ===== src/Fs/Itable.antt =====
-- kernel/fs.c: the table of inodes in memory. A `struct inode *` is an index of the table; an index
-- out of it stands for the null pointer.
pub mod Unique
use os_spring.Prelude.{
  ℕ, zero, suc, ◌+◌, ◌-◌, ◌*◌, ◌/◌, ◌%◌, ◌^◌, ◌≤◌, ◌<◌, ◌≡◌, ◌≢◌, ◌⊎◌, ◌↔◌, inl, inr, refl, sym,
  subst, ap, ◌∙◌, fun_ext, List, [], ◌∷◌, ◌++◌, map, Bool, true, false, not, ◌&&◌, ◌||◌, Option,
  none, some, some-injective, arith, All, All-map, length, get_elem?, get_or, set, take, drop,
  replicate, length-append, length-set, get_or-set_self, get_elem?-set_self, get_elem?-set_ne,
  get_or-set_ne, ℤ, pos, negsuc, sub_ℕ, sub_ℕ-eq_zero, ltb, leb, ◌==◌, ==_iff, Bool-cases,
  Option-cases, if◌then◌else◌, Outcome, ok, panic, fault, no_fuel, ◌>>=◌,
}
use os_spring.Sleeplock.{Sleeplock, acquiresleep, releasesleep, holdingsleep}
use os_spring.Fs.{Superblock, Dinode, Inode, Fs, ipb, no_dinode, store, log_write, iblock}
use os_spring.Fs.Map.{iupdate, itrunc}

-- NINODE of kernel/param.h
abbrev ninode : ℕ
ninode = 50

new_inode : Inode
new_inode = record {
  dev = 0;
  inum = 0;
  ref = 0;
  lock = record { locked = false; pid = 0 };
  valid = false;
  copy = no_dinode;
}

iinit : List Inode
iinit = replicate ninode new_inode

abbrev pub put_inode : ℕ → Inode → Fs → Fs
put_inode i ip fs = record fs { itable = set fs.itable i ip }

abbrev pub holds : ℕ → ℕ → Inode → Bool
holds dev inum ip = ltb 0 ip.ref && (ip.dev == dev && ip.inum == inum)

-- if(empty == 0 && ip->ref == 0) empty = ip;
abbrev pub kept_slot : Option ℕ → ℕ → Inode → Option ℕ
kept_slot none i ip = if ip.ref == 0 then some i else none
kept_slot (some e) i ip = some e

-- The loop of iget from entry `i` on, with the empty slot remembered: the entry of the inode, if it
-- has one, and the slot.
pub iget_from : ℕ → ℕ → ℕ → Option ℕ → List Inode → Option ℕ × Option ℕ
iget_from dev inum i empty [] = (none, empty)
iget_from dev inum i empty (ip ∷ t) =
    let rest = iget_from dev inum (i + 1) (kept_slot empty i ip) t in
    if holds dev inum ip then (some i, empty) else rest

abbrev pub claim : ℕ → ℕ → Inode → Inode
claim dev inum ip = record ip { dev = dev; inum = inum; ref = 1; valid = false }

pub idup : ℕ → Fs → Outcome (ℕ × Fs)
idup i fs = elim (get_elem? fs.itable i) [
  | none ↦ fault
  | some ip ↦ ok (i, put_inode i (record ip { ref = ip.ref + 1 }) fs)
]

pub iget : ℕ → ℕ → Fs → Outcome (ℕ × Fs)
unfolding idup
iget dev inum fs =
    let found = iget_from dev inum 0 none fs.itable in
    elim found.0 [
      | some i ↦ idup i fs
      | none ↦ elim found.1 [
        | none ↦ panic
        | some i ↦ elim (get_elem? fs.itable i) [
          | none ↦ fault
          | some ip ↦ ok (i, put_inode i (claim dev inum ip) fs)
        ]
      ]
    ]

-- stati
pub record Stat : Type 0 where
  pub dev : ℕ
  pub ino : ℕ
  pub type : ℕ
  pub nlink : ℕ
  pub size : ℕ

pub stati : Inode → Stat
stati ip = record {
  dev = ip.dev;
  ino = ip.inum;
  type = ip.copy.type;
  nlink = ip.copy.nlink;
  size = ip.copy.size;
}

module _ (sb : Superblock) where
  -- The loop of ialloc from inode `inum` on; the first argument is the rounds left. none is its 0.
  ialloc_from : ℕ → ℕ → ℕ → ℕ → Fs → Outcome (Option ℕ × Fs)
  ialloc_from zero inum dev type fs = ok (none, fs)
  ialloc_from (suc k) inum dev type fs =
      let b = iblock sb inum in
      let rest = ialloc_from k (inum + 1) dev type fs in
      let d = record no_dinode { type = type } in
      if (fs.dinodes b (inum % ipb)).type == 0
      then (iget dev inum (
            log_write b
              (record fs { dinodes = store fs.dinodes b (store (fs.dinodes b) (inum % ipb) d) }))
          >>= λ (i, fs'). ok (some i, fs'))
      else rest

  pub ialloc : ℕ → ℕ → Fs → Outcome (Option ℕ × Fs)
  ialloc dev type fs = ialloc_from (sb.ninodes - 1) 1 dev type fs

  -- The process that runs, by its index and pid, and the addresses of the inodes' locks.
  module _ (me pid : ℕ) (lock_at : ℕ → ℕ) where
    -- none where the process goes to sleep on the inode's lock.
    pub ilock : ℕ → Fs → Outcome (Option Fs)
    ilock i fs = elim (get_elem? fs.itable i) [
      | none ↦ panic
      | some ip ↦
          let d = fs.dinodes (iblock sb ip.inum) (ip.inum % ipb) in
          if ltb ip.ref 1 then panic else elim (acquiresleep pid ip.lock) [
            | none ↦ ok none
            | some lk ↦
                if ip.valid
                then ok (some (put_inode i (record ip { lock = lk }) fs))
                else if d.type == 0
                then panic
                else ok (some (put_inode i (record ip { lock = lk; valid = true; copy = d }) fs))
          ]
    ]

    pub iunlock : ℕ → Fs → Outcome Fs
    iunlock i fs = elim (get_elem? fs.itable i) [
      | none ↦ panic
      | some ip ↦
          let (lk, t) = releasesleep (lock_at i) me ip.lock fs.procs in
          if not (holdingsleep pid ip.lock) || ltb ip.ref 1
          then panic
          else ok (put_inode i (record ip { lock = lk }) (record fs { procs = t }))
    ]

    -- The part of iput that frees the inode on disk; no other process can have it
    -- locked, and where one has, this waits for it.
    pub free_inode : ℕ → Inode → Fs → Outcome (Inode × Fs)
    free_inode i ip fs = elim (acquiresleep pid ip.lock) [
      | none ↦ no_fuel
      | some lk ↦ itrunc sb ip.inum ip.copy fs >>= λ (d, fs₁).
          let d' = record d { type = 0 } in
          let (free, t) = releasesleep (lock_at i) me lk fs₁.procs in
          ok (
            record ip { copy = d'; valid = false; lock = free },
            record (iupdate sb ip.inum d' fs₁) { procs = t },
          )
    ]

    pub iput : ℕ → Fs → Outcome Fs
    iput i fs = elim (get_elem? fs.itable i) [
      | none ↦ fault
      | some ip ↦
          (if ip.ref == 1 && (ip.valid && ip.copy.nlink == 0)
            then free_inode i ip fs
            else ok (ip, fs))
          >>= λ (ip', fs'). ok (put_inode i (record ip' { ref = ip'.ref - 1 }) fs')
    ]

    pub iunlockput : ℕ → Fs → Outcome Fs
    iunlockput i fs = iunlock i fs >>= iput i
