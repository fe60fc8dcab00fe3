-- ===== src/Virtio/Tests.antt =====
-- Tests of kernel/virtio_disk.c's model.
use os_spring.Prelude.{
  ℕ, ◌+◌, ◌%◌, ◌^◌, ◌≡◌, ◌≢◌, ◌⊎◌, refl, [], ◌∷◌, true, false, none, some, arith, ok,
}
use os_spring.Virtio.{Disk, Req, num, no_desc, alloc3_desc, disk_rw_start, disk_rw_end, disk_intr}
use os_spring.Virtio.Alloc.{Taken, SameFree, FewFree, take_desc, alloc3_desc_lem}
use os_spring.Virtio.Request.{answered, Asks, request_ends}

abbrev idle_disk : Disk
idle_disk = record {
  desc = λ i. no_desc;
  free = λ i. true;
  ring = λ i. 0;
  avail_idx = 0;
  used_ring = λ i. 0;
  used = 0;
  used_idx = 0;
  info_b = λ i. none;
  status = λ i. 0;
  ops = λ i. record { type = 0; sector = 0 };
  owned = λ b. false;
  procs = [];
}

abbrev zeros : ℕ → ℕ
zeros i = 0

alloc3_desc_lem_example :
    ((i₀ i₁ i₂ : ℕ) × (d' : Disk) × (alloc3_desc none 0 zeros idle_disk
        ≡ ok (some (i₀ ∷ i₁ ∷ i₂ ∷ []), d'))
      × Taken idle_disk i₀ i₁ i₂ d')
    ⊎ ((d' : Disk) × (alloc3_desc none 0 zeros idle_disk ≡ ok (none, d'))
        × SameFree idle_disk d'
        × FewFree idle_disk)
alloc3_desc_lem_example = alloc3_desc_lem none 0 zeros idle_disk

-- The disk after the first three descriptors are taken.
abbrev three_taken : Disk
three_taken = take_desc 2 (take_desc 1 (take_desc 0 idle_disk))

first_three : alloc3_desc none 0 zeros idle_disk ≡ ok (some (0 ∷ 1 ∷ 2 ∷ []), three_taken)
unfolding alloc3_desc os_spring.Virtio.alloc3_from os_spring.Virtio.alloc_desc
    os_spring.Virtio.alloc_from
first_three = refl

first_three-Taken : Taken idle_disk 0 1 2 three_taken
first_three-Taken = record {
  within = (omega arith, omega arith, omega arith);
  free = (refl, refl, refl);
  apart = ((λ e. omega (arith, e)), (λ e. omega (arith, e)), (λ e. omega (arith, e)));
  now = refl;
}

request_ends_example :
    (d₁ d₂ d₃ : Disk) × (disk_rw_start none 0 zeros 5 7 true idle_disk ≡ ok (some 0, d₁))
    × Asks d₁ 5 7 true 0 1 2
    × (d₁.ring (0 % num) ≡ 0)
    × (d₁.avail_idx ≡ (0 + 1) % 2 ^ 16)
    × ((j : ℕ) → j ≢ 0 % num → d₁.ring j ≡ 0)
    × (disk_rw_end none 0 zeros 5 0 d₁ ≡ ok none)
    × (disk_intr none 0 zeros (answered zeros zeros d₁) ≡ ok d₂)
    × (disk_rw_end none 0 zeros 5 0 d₂ ≡ ok (some d₃))
    × ((j : ℕ) → d₃.free j ≡ true)
    × ((j : ℕ) → true ≡ false → d₃.desc j ≡ no_desc)
    × (d₃.used_idx ≡ d₃.used)
    × (d₃.owned 5 ≡ false)
request_ends_example =
    request_ends none 0 zeros idle_disk three_taken 5 7 0 1 2 true zeros zeros first_three
      first_three-Taken refl (omega arith) refl refl
