-- ===== src/Usb/Pool/Tests.antt =====
-- A ring's segment of 512 bytes, on the last bytes of a page.
use duvuvurkarpogeschel.Prelude.{ℕ, ◌+◌, ◌^◌, ◌<◌, ◌≤◌, ◌≡◌, ◌⊎◌, refl, none, some, arith}
use duvuvurkarpogeschel.Usb.Pool.{memory_pool_size, alloc_mem, align, bound, ceil}
use duvuvurkarpogeschel.Usb.Pool.Blocks.{IsMultiple, IsWithin, alloc_mem_lem}

next_page : alloc_mem 0x10000 0x10fc1 512 64 4096 ≡ (some 0x11000, 0x11200)
unfolding alloc_mem align bound ceil
next_page = refl

alloc_mem_lem_example :
    let r = alloc_mem 0x10000 0x10fc1 512 (2 ^ 6) (2 ^ 12) in
    (r.0 ≡ none) × (0x10fc1 ≤ r.1) × (0x10000 + memory_pool_size < 0x10fc1 + 2 ^ 6 + 2 ^ 12 + 512)
    ⊎ (p : ℕ) × (r ≡ (some p, p + 512))
      × (0x10fc1 ≤ p)
      × (p + 512 ≤ 0x10000 + memory_pool_size)
      × IsMultiple (2 ^ 6) p
      × IsWithin (2 ^ 12) p 512
alloc_mem_lem_example =
    alloc_mem_lem 0x10000 0x10fc1 512 6 12 (omega arith) (omega arith) (omega arith) (omega arith)
      (omega arith) (omega arith)
