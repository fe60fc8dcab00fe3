-- ===== src/Virtio/Request.antt =====
-- virtio_disk_rw and virtio_disk_intr of kernel/virtio_disk.c: a request from its start to its end.
use os_spring.Prelude.{
  ℕ, zero, suc, ◌+◌, ◌*◌, ◌%◌, ◌^◌, ◌<◌, ◌≡◌, ◌≢◌, refl, sym, ap, ◌∙◌, [], ◌∷◌, Bool, true, false,
  Option, none, some, arith, if◌then◌else◌, ok,
}
use os_spring.Proc.{at_object, wakeup}
use os_spring.Virtio.{
  op_at, bytes_of, status_at, Disk, num, store, desc_freed, free_chain, free_chain_from,
  alloc3_desc, format, disk_rw_start, disk_rw_end, disk_intr, disk_intr_from,
}
use os_spring.Virtio.Alloc.{Taken, take_desc, free_desc_used}

-- The device has put the head `i₀` in the used ring of `d` with status 0, as its next entry; the ring
-- and the status bytes that it wrote are `ring'` and `status'`.
abbrev pub answered : (ℕ → ℕ) → (ℕ → ℕ) → Disk → Disk
answered ring' status' d = record d {
  used_ring = ring';
  status = status';
  used = (d.used + 1) % 2 ^ 16;
}

-- Three different descriptors in use that are linked in a chain.
record Chain (d : Disk) (i₀ i₁ i₂ : ℕ) : Type 0 where
  within : (i₀ < num) × (i₁ < num) × (i₂ < num)
  used : (d.free i₀ ≡ false) × (d.free i₁ ≡ false) × (d.free i₂ ≡ false)
  apart : (i₀ ≢ i₁) × (i₀ ≢ i₂) × (i₁ ≢ i₂)
  head : ((d.desc i₀).flags % 2 ≡ 1) × ((d.desc i₀).next ≡ i₁)
  middle : ((d.desc i₁).flags % 2 ≡ 1) × ((d.desc i₁).next ≡ i₂)
  last : (d.desc i₂).flags % 2 ≡ 0

-- The chain from `i₀` asks the device for the block `blockno`: its header, the bytes of the buffer `b`,
-- which the device reads to write the block or writes to read it, and a byte for the status.
pub record Asks (d : Disk) (b blockno : ℕ) (write : Bool) (i₀ i₁ i₂ : ℕ) : Type 0 where
  pub header : d.desc i₀ ≡ record { addr = op_at i₀; len = 16; flags = 1; next = i₁ }
  pub request : d.ops i₀ ≡ record { type = if write then 1 else 0; sector = blockno * 2 % 2 ^ 32 }
  pub buffer :
      d.desc i₁
      ≡ record { addr = bytes_of b; len = 1024; flags = if write then 1 else 3; next = i₂ }
  pub result : d.desc i₂ ≡ record { addr = status_at i₀; len = 1; flags = 2; next = 0 }

module _ (me : Option ℕ) (free_at : ℕ) (buf_at : ℕ → ℕ) where
  chain_goes_on :
      (k i j : ℕ) (d : Disk)
      → i < num
      → d.free i ≡ false
      → (d.desc i).flags % 2 ≡ 1
      → (d.desc i).next ≡ j
      → free_chain_from me free_at buf_at (suc k) i d
        ≡ free_chain_from me free_at buf_at k j (desc_freed me free_at buf_at i d)
  unfolding free_chain_from
  chain_goes_on k i j d h used flag link =
      rw (free_desc_used me free_at buf_at i d h used, flag, link) refl

  chain_ends :
      (k i : ℕ) (d : Disk)
      → i < num
      → d.free i ≡ false
      → (d.desc i).flags % 2 ≡ 0
      → free_chain_from me free_at buf_at (suc k) i d ≡ ok (desc_freed me free_at buf_at i d)
  unfolding free_chain_from
  chain_ends k i d h used flag = rw (free_desc_used me free_at buf_at i d h used, flag) refl

  free_chain_lem :
      (d : Disk) (i₀ i₁ i₂ : ℕ)
      → Chain d i₀ i₁ i₂
      → free_chain me free_at buf_at i₀ d
        ≡ ok (
            desc_freed me free_at buf_at i₂
              (desc_freed me free_at buf_at i₁ (desc_freed me free_at buf_at i₀ d)))
  unfolding free_chain
  free_chain_lem d i₀ i₁ i₂ c =
      let d₁ = desc_freed me free_at buf_at i₀ d in
      let d₂ = desc_freed me free_at buf_at i₁ d₁ in
      chain_goes_on 8 i₀ i₁ d c.within.0 c.used.0 c.head.0 c.head.1
      ∙ chain_goes_on 7 i₁ i₂ d₁ c.within.1 (ground (arith, c.used, c.apart))
          (ground (arith, c.middle, c.apart)) (ground (arith, c.middle, c.apart))
      ∙ chain_ends 6 i₂ d₂ c.within.2 (ground (arith, c.used, c.apart))
          (ground (arith, c.last, c.apart))

  -- The state after a round of the interrupt's loop that finds the buffer `b`.
  abbrev pub passed : ℕ → Disk → Disk
  passed b d = record d {
    owned = store d.owned b false;
    procs = wakeup me (at_object (buf_at b)) d.procs;
    used_idx = (d.used_idx + 1) % 2 ^ 16;
  }

  intr_goes_on :
      (k b : ℕ) (d : Disk)
      → d.used_idx ≢ d.used
      → d.status (d.used_ring (d.used_idx % num)) ≡ 0
      → d.info_b (d.used_ring (d.used_idx % num)) ≡ some b
      → disk_intr_from me free_at buf_at (suc k) d ≡ disk_intr_from me free_at buf_at k (passed b d)
  unfolding disk_intr_from
  intr_goes_on k b d new good named = ground (arith, new, good, named)

  intr_ends : (k : ℕ) (d : Disk) → d.used_idx ≡ d.used → disk_intr_from me free_at buf_at k d ≡ ok d
  unfolding disk_intr_from
  intr_ends zero d done = ground (arith, done)
  intr_ends (suc k) d done = ground (arith, done)

  disk_intr_one :
      (d : Disk) (b : ℕ)
      → d.used ≡ (d.used_idx + 1) % 2 ^ 16
      → d.used_idx < 2 ^ 16
      → d.status (d.used_ring (d.used_idx % num)) ≡ 0
      → d.info_b (d.used_ring (d.used_idx % num)) ≡ some b
      → disk_intr me free_at buf_at d ≡ ok (passed b d)
  unfolding disk_intr
  disk_intr_one d b next bound good named =
      intr_goes_on 7 b d (λ same. omega (arith, same, next, bound)) good named
      ∙ intr_ends 7 (passed b d) (sym next)

  -- A request of virtio_disk_rw: with three free descriptors in hand and nothing left in the used
  -- ring, it waits as long as the device has not answered; after the device's answer the interrupt gives the
  -- buffer back, and the request then ends. Descriptors that were free are free again, all others are as
  -- they were. The device has been handed the chain that asks for the block: its head stands in the next
  -- place of the available ring, whose other places are as they were, and the index of the ring is one
  -- higher.
  pub request_ends :
      (d d' : Disk) (b blockno i₀ i₁ i₂ : ℕ) (write : Bool) (ring' status' : ℕ → ℕ)
      → alloc3_desc me free_at buf_at d ≡ ok (some (i₀ ∷ i₁ ∷ i₂ ∷ []), d')
      → Taken d i₀ i₁ i₂ d'
      → d.used_idx ≡ d.used
      → d.used < 2 ^ 16
      → ring' (d.used % num) ≡ i₀
      → status' i₀ ≡ 0
      → (d₁ d₂ d₃ : Disk) × (disk_rw_start me free_at buf_at b blockno write d ≡ ok (some i₀, d₁))
        × Asks d₁ b blockno write i₀ i₁ i₂
        × (d₁.ring (d.avail_idx % num) ≡ i₀)
        × (d₁.avail_idx ≡ (d.avail_idx + 1) % 2 ^ 16)
        × ((j : ℕ) → j ≢ d.avail_idx % num → d₁.ring j ≡ d.ring j)
        × (disk_rw_end me free_at buf_at b i₀ d₁ ≡ ok none)
        × (disk_intr me free_at buf_at (answered ring' status' d₁) ≡ ok d₂)
        × (disk_rw_end me free_at buf_at b i₀ d₂ ≡ ok (some d₃))
        × ((j : ℕ) → d₃.free j ≡ d.free j)
        × ((j : ℕ) → d.free j ≡ false → d₃.desc j ≡ d.desc j)
        × (d₃.used_idx ≡ d₃.used)
        × (d₃.owned b ≡ false)
  unfolding disk_rw_start disk_rw_end format
  request_ends d d' b blockno i₀ i₁ i₂ write ring' status' taken t idle bound entry good =
      let now = take_desc i₂ (take_desc i₁ (take_desc i₀ d)) in
      let d₁ = format me free_at buf_at b blockno write i₀ i₁ i₂ now in
      let d₂ = passed b (answered ring' status' d₁) in
      let off = record d₂ { info_b = store d₂.info_b i₀ none } in
      let linked : Chain off i₀ i₁ i₂ = record {
        within = t.within;
        used = (ground (arith, t.apart), ground (arith, t.apart), ground (arith, t.apart));
        apart = t.apart;
        head = (ground (arith, t.apart), ground (arith, t.apart));
        middle = (
          elim write [ true ↦ ground (arith, t.apart) | false ↦ ground (arith, t.apart) ],
          ground (arith, t.apart),
        );
        last = ground (arith, t.apart);
      } in
      (
        d₁,
        d₂,
        desc_freed me free_at buf_at i₂
            (desc_freed me free_at buf_at i₁ (desc_freed me free_at buf_at i₀ off)),
        rw (taken, t.now) refl,
        record {
          header = ground (arith, t.apart);
          request = ground arith;
          buffer = elim write [ true ↦ ground (arith, t.apart) | false ↦ ground (arith, t.apart) ];
          result = ground (arith, t.apart);
        },
        ground arith,
        refl,
        λ j ne. ground (arith, ne),
        ground arith,
        disk_intr_one (answered ring' status' d₁) b (ap (λ i. (i + 1) % 2 ^ 16) (sym idle))
            (omega (arith, idle, bound)) (ground (arith, idle, entry, good))
            (ground (arith, idle, entry)),
        ground (arith, free_chain_lem off i₀ i₁ i₂ linked),
        λ j. ground (arith, t.free),
        λ j used. ground (arith, used, t.free),
        ap (λ i. (i + 1) % 2 ^ 16) idle,
        ground arith,
      )
