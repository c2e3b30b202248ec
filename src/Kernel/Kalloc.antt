-- ===== src/Kernel/Kalloc.antt =====
-- kernel/kalloc.c: the allocator of physical pages. Of a page it reads only the first word, where
-- `struct run` keeps its link: memory is the first word of each page, and 0 is the null pointer.
pub mod Freelist
mod Tests
use system_call_enhancement.Base.{
  ℕ, zero, suc, ◌+◌, ◌-◌, ◌*◌, ◌/◌, ◌%◌, ◌==◌, ltb, leb, if◌then◌else◌, Bool, true, false, not,
  ◌||◌,
}
use system_call_enhancement.Kernel.Spinlock.{
  Outcome, ok, panic, ◌>>=◌, Spinlock, Hart, initlock, acquire, release,
}
use system_call_enhancement.Kernel.Proc.{page_size}

-- `PHYSTOP`
abbrev pub phystop : ℕ
phystop = 0x80000000 + 128 * 1024 * 1024

-- `kmem`, and the memory that its list runs through.
pub record Kmem : Type 0 where
  pub lock : Spinlock
  pub freelist : ℕ
  pub words : ℕ → ℕ

abbrev pub write : (ℕ → ℕ) → (pa v : ℕ) → ℕ → ℕ
write words pa v p = if pa == p then v else words p

-- The first word of a page that `memset` has filled with 1 or with 5.
abbrev pub junk_freed : ℕ
junk_freed = 0x0101010101010101

abbrev pub junk_new : ℕ
junk_new = 0x0505050505050505

-- `kfree` behind its `memset`
unfoldable pub put_page : (pa : ℕ) → Hart → Kmem → Outcome (Hart × Kmem)
put_page pa h m = do
  (h₁, lk₁) ← acquire h m.lock
  (h₂, lk₂) ← release h₁ lk₁
  ok (h₂, record m { lock = lk₂; freelist = pa; words = write m.words pa m.freelist })

-- `kernel_end` is the address of the symbol `end`, which the linker defines.
unfoldable pub kfree : (kernel_end pa : ℕ) → Hart → Kmem → Outcome (Hart × Kmem)
kfree kernel_end pa h m =
    if not (pa % page_size == 0) || (ltb pa kernel_end || leb phystop pa)
    then panic
    else put_page pa h (record m { words = write m.words pa junk_freed })

unfoldable pub kalloc : Hart → Kmem → Outcome (ℕ × Hart × Kmem)
kalloc h m = do
  (h₁, lk₁) ← acquire h m.lock
  let r = m.freelist
  (h₂, lk₂) ← release h₁ lk₁
  let taken = record m { lock = lk₂; freelist = m.words r; words = write m.words r junk_new }
  ok (r, h₂, if r == 0 then record m { lock = lk₂ } else taken)

-- n turns of the loop of `freerange` from p on.
unfoldable pub free_from : (kernel_end n p : ℕ) → Hart → Kmem → Outcome (Hart × Kmem)
free_from kernel_end zero p h m = ok (h, m)
free_from kernel_end (suc n) p h m = do
  (h₁, m₁) ← kfree kernel_end p h m
  free_from kernel_end n (p + page_size) h₁ m₁

-- `PGROUNDUP`
abbrev pub round_up : ℕ → ℕ
round_up sz = (sz + page_size - 1) / page_size * page_size

-- The loop takes a turn for each page that ends by pa_end.
unfoldable pub freerange : (kernel_end pa_start pa_end : ℕ) → Hart → Kmem → Outcome (Hart × Kmem)
freerange kernel_end pa_start pa_end h m =
    free_from kernel_end ((pa_end - round_up pa_start) / page_size) (round_up pa_start) h m

unfoldable pub kinit : (kernel_end : ℕ) → Hart → Kmem → Outcome (Hart × Kmem)
kinit kernel_end h m =
    freerange kernel_end kernel_end phystop h (record m { lock = initlock "kmem" })
