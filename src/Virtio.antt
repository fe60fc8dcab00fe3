-- ===== src/Virtio.antt =====
-- kernel/virtio_disk.c: the descriptors of the disk driver, its requests and its interrupt. The pages
-- that the driver shares with the device are fields of the state; a pointer into the driver's own
-- memory is an `Addr`. A `struct buf` is named by a number. The lock is held across each step, and a
-- wait in sleep ends a step. `me` is the process that runs, none in an interrupt.
pub mod Alloc
pub mod Request
mod Tests
use os_spring.Prelude.{
  ℕ, zero, suc, ◌+◌, ◌-◌, ◌*◌, ◌/◌, ◌%◌, ◌^◌, ◌≤◌, ◌<◌, ◌≡◌, ◌≢◌, ◌⊎◌, ◌↔◌, inl, inr, refl, sym,
  subst, ap, ◌∙◌, fun_ext, List, [], ◌∷◌, ◌++◌, map, Bool, true, false, not, ◌&&◌, ◌||◌, Option,
  none, some, some-injective, arith, All, All-map, length, get_elem?, get_or, set, take, drop,
  replicate, length-append, length-set, get_or-set_self, get_elem?-set_self, get_elem?-set_ne,
  get_or-set_ne, ℤ, pos, negsuc, sub_ℕ, sub_ℕ-eq_zero, ltb, leb, ◌==◌, ==_iff, Bool-cases,
  Option-cases, if◌then◌else◌, Outcome, ok, panic, fault, no_fuel, ◌>>=◌,
}
use os_spring.Proc.{Table, at_object, wakeup}

-- NUM of kernel/virtio.h
abbrev pub num : ℕ
num = 8

pub data Addr : Type 0 where
  null : Addr
  op_at : ℕ → Addr
  bytes_of : ℕ → Addr
  status_at : ℕ → Addr

pub record Desc : Type 0 where
  pub addr : Addr
  pub len : ℕ
  pub flags : ℕ
  pub next : ℕ

-- struct virtio_blk_req, but for its reserved word, which is 0
pub record Req : Type 0 where
  pub type : ℕ
  pub sector : ℕ

pub record Disk : Type 0 where
  pub desc : ℕ → Desc
  pub free : ℕ → Bool
  pub ring : ℕ → ℕ
  pub avail_idx : ℕ
  pub used_ring : ℕ → ℕ
  pub used : ℕ
  pub used_idx : ℕ
  pub info_b : ℕ → Option ℕ
  pub status : ℕ → ℕ
  pub ops : ℕ → Req
  -- b->disk == 1
  pub owned : ℕ → Bool
  pub procs : Table

abbrev pub store {ℓ} : {A : Type ℓ} → (ℕ → A) → ℕ → A → ℕ → A
store f i a j = if i == j then a else f j

-- VRING_DESC_F_NEXT and VRING_DESC_F_WRITE; f_next is the lowest bit.
abbrev f_next : ℕ
f_next = 1

abbrev f_write : ℕ
f_write = 2

-- The loop of alloc_desc from `i` on; the first argument is the rounds left. none is its -1.
pub alloc_from : ℕ → ℕ → Disk → Option ℕ × Disk
alloc_from zero i d = (none, d)
alloc_from (suc k) i d =
    let rest = alloc_from k (i + 1) d in
    if d.free i then (some i, record d { free = store d.free i false }) else rest

pub alloc_desc : Disk → Option ℕ × Disk
alloc_desc d = alloc_from num 0 d

abbrev pub no_desc : Desc
no_desc = record { addr = null; len = 0; flags = 0; next = 0 }

module _ (me : Option ℕ) (free_at : ℕ) (buf_at : ℕ → ℕ) where
  -- The end of free_desc; `free_at` is the address of disk.free[0].
  abbrev pub desc_freed : ℕ → Disk → Disk
  desc_freed i d = record d {
    desc = store d.desc i no_desc;
    free = store d.free i true;
    procs = wakeup me (at_object free_at) d.procs;
  }

  pub free_desc : ℕ → Disk → Outcome Disk
  free_desc i d = if leb num i then panic else if d.free i then panic else ok (desc_freed i d)

  -- The loop of free_chain, with fuel: no descriptor can be desc_freed twice.
  pub free_chain_from : ℕ → ℕ → Disk → Outcome Disk
  unfolding free_desc
  free_chain_from zero i d = no_fuel
  free_chain_from (suc k) i d =
      let e = d.desc i in
      free_desc i d >>= λ d'. elim (e.flags % 2 == 1) [
        | true ↦ free_chain_from k e.next d'
        | false ↦ ok d'
      ]

  pub free_chain : ℕ → Disk → Outcome Disk
  free_chain i d = free_chain_from (suc num) i d

  -- The loop of alloc3_desc over j: the descriptors taken so far are given back.
  pub give_back : List ℕ → Disk → Outcome Disk
  give_back [] d = ok d
  give_back (i ∷ is) d = free_desc i d >>= give_back is

  -- The loop of alloc3_desc; the first argument is the rounds left, `idx` what the loop has taken.
  pub alloc3_from : ℕ → List ℕ → Disk → Outcome (Option (List ℕ) × Disk)
  alloc3_from zero idx d = ok (some idx, d)
  alloc3_from (suc k) idx d =
      let (got, d') = alloc_desc d in
      elim got [
        | none ↦ give_back idx d' >>= λ d''. ok (none, d'')
        | some i ↦ alloc3_from k (idx ++ i ∷ []) d'
      ]

  pub alloc3_desc : Disk → Outcome (Option (List ℕ) × Disk)
  alloc3_desc d = alloc3_from 3 [] d

  -- The three descriptors and the request, formatted for the block `blockno` of the buffer `b`; then
  -- the head is put in the ring. The buffer belongs to the device until the interrupt.
  pub format : ℕ → ℕ → Bool → ℕ → ℕ → ℕ → Disk → Disk
  format b blockno write i₀ i₁ i₂ d = record d {
    ops = store d.ops i₀ (record { type = if write then 1 else 0; sector = blockno * 2 % 2 ^ 32 });
    desc =
        store
          (store (store d.desc i₀ (record { addr = op_at i₀; len = 16; flags = f_next; next = i₁ }))
            i₁
            (record {
              addr = bytes_of b;
              len = 1024;
              flags = (if write then 0 else f_write) + f_next;
              next = i₂;
            }))
          i₂ (record { addr = status_at i₀; len = 1; flags = f_write; next = 0 });
    status = store d.status i₀ 255;
    owned = store d.owned b true;
    info_b = store d.info_b i₀ (some b);
    ring = store d.ring (d.avail_idx % num) i₀;
    avail_idx = (d.avail_idx + 1) % 2 ^ 16;
  }

  -- virtio_disk_rw up to its wait for the interrupt: the head of the chain, or none where it sleeps for
  -- a descriptor.
  pub disk_rw_start : ℕ → ℕ → Bool → Disk → Outcome (Option ℕ × Disk)
  disk_rw_start b blockno write d = alloc3_desc d >>= λ (got, d'). elim got [
    | some (i₀ ∷ i₁ ∷ i₂ ∷ []) ↦ ok (some i₀, format b blockno write i₀ i₁ i₂ d')
    | _ ↦ ok (none, d')
  ]

  -- Its end from the wait on; none where the buffer still belongs to the device and it sleeps.
  pub disk_rw_end : ℕ → ℕ → Disk → Outcome (Option Disk)
  unfolding free_chain
  disk_rw_end b i₀ d =
      if d.owned b
      then ok none
      else free_chain i₀ (record d { info_b = store d.info_b i₀ none }) >>= λ d'. ok (some d')

  -- The loop of virtio_disk_intr, with fuel for the entries of the ring; `buf_at` is the address of a
  -- buffer. An entry with no buffer is a null pointer.
  pub disk_intr_from : ℕ → Disk → Outcome Disk
  disk_intr_from zero d = if d.used_idx == d.used then ok d else no_fuel
  disk_intr_from (suc k) d =
      let id = d.used_ring (d.used_idx % num) in
      if d.used_idx == d.used
      then ok d
      else if not (d.status id == 0)
      then panic
      else elim (d.info_b id) [
        | none ↦ fault
        | some b ↦ disk_intr_from k (record d {
          owned = store d.owned b false;
          procs = wakeup me (at_object (buf_at b)) d.procs;
          used_idx = (d.used_idx + 1) % 2 ^ 16;
        })
      ]

  pub disk_intr : Disk → Outcome Disk
  disk_intr d = disk_intr_from num d
