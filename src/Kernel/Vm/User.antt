-- ===== src/Kernel/Vm/User.antt =====
-- The user half of kernel/vm.c: the functions named uvm…, which give a process its pages and take
-- them back. The address of the symbol `end`, below which `kfree` panics, is `kernel_end`.
use system_call_enhancement.Base.{
  ℕ, zero, suc, ◌+◌, ◌-◌, ◌*◌, ◌/◌, ◌%◌, ◌==◌, ltb, leb, if◌then◌else◌, Bool, true, false, not,
  ◌||◌, ◌∷◌, Option, none, some,
}
use Prim.Native.Nat.{bit_or}
use system_call_enhancement.Kernel.Spinlock.{Outcome, ok, panic, ◌>>=◌}
use system_call_enhancement.Kernel.Proc.{page_size}
use system_call_enhancement.Kernel.Kalloc.{phystop, round_up}
use system_call_enhancement.Kernel.Text.{memmove}
use system_call_enhancement.Kernel.Vm.{
  Memory, pte2pa, pte_flags, is_valid, fill_page, store, kalloc, walk, mappages,
}

-- `kfree`, as Kernel.Kalloc has it
unfoldable pub kfree : (kernel_end pa : ℕ) → Memory → Outcome Memory
kfree kernel_end pa m =
    if not (pa % page_size == 0) || (ltb pa kernel_end || leb phystop pa)
    then panic
    else ok (record (fill_page pa 1 m) { pages = pa ∷ m.pages })

-- The loop of `uvmunmap` over n pages from `a` on
unfoldable pub unmap_from :
    (kernel_end n pagetable a : ℕ) (do_free : Bool) → Memory → Outcome Memory
unmap_from kernel_end zero pagetable a do_free m = ok m
unmap_from kernel_end (suc n) pagetable a do_free m = do
  (pte, m₁) ← walk false pagetable a m
  elim pte [
    | none ↦ panic
    | some (t, i) ↦
        let e = m₁.entries t i in
        if not (is_valid e) || pte_flags e == 1 then panic else do
          m₂ ← (if do_free then kfree kernel_end (pte2pa e) m₁ else ok m₁)
          unmap_from kernel_end n pagetable (a + page_size) do_free (store t i 0 m₂)
  ]

unfoldable pub uvmunmap :
    (kernel_end pagetable va npages : ℕ) (do_free : Bool) → Memory → Outcome Memory
uvmunmap kernel_end pagetable va npages do_free m =
    if not (va % page_size == 0) then panic else unmap_from kernel_end npages pagetable va do_free m

unfoldable pub uvmcreate : Memory → Option ℕ × Memory
uvmcreate m = elim (kalloc m) [ none ↦ (none, m) | some (p, m₁) ↦ (some p, fill_page p 0 m₁) ]

-- The code does not look whether `kalloc` found a page: a store through the null pointer is a
-- panic.
unfoldable pub uvmfirst : (pagetable src sz : ℕ) → Memory → Outcome Memory
uvmfirst pagetable src sz m = if leb page_size sz then panic else elim (kalloc m) [
  | none ↦ panic
  | some (mem, m₁) ↦ do
    (mapped, m₂) ← mappages pagetable 0 page_size mem 30 (fill_page mem 0 m₁)
    ok (record m₂ { bytes = memmove mem src sz m₂.bytes })
]

unfoldable pub uvmdealloc : (kernel_end pagetable oldsz newsz : ℕ) → Memory → Outcome (ℕ × Memory)
uvmdealloc kernel_end pagetable oldsz newsz m =
    if leb oldsz newsz
    then ok (oldsz, m)
    else if not (ltb (round_up newsz) (round_up oldsz))
    then ok (newsz, m)
    else do
      let npages = (round_up oldsz - round_up newsz) / page_size
      m₁ ← uvmunmap kernel_end pagetable (round_up newsz) npages true m
      ok (newsz, m₁)

-- The loop of `uvmalloc` with n pages left from `a` on; `oldsz` is rounded up.
unfoldable pub alloc_from :
    (kernel_end n pagetable a oldsz newsz xperm : ℕ) → Memory → Outcome (ℕ × Memory)
alloc_from kernel_end zero pagetable a oldsz newsz xperm m = ok (newsz, m)
alloc_from kernel_end (suc n) pagetable a oldsz newsz xperm m = elim (kalloc m) [
  | none ↦ do (sz, m₁) ← uvmdealloc kernel_end pagetable a oldsz m; ok (0, m₁)
  | some (mem, m₁) ↦ do
    (mapped, m₂) ←
        mappages pagetable a page_size mem (bit_or (bit_or 2 16) xperm) (fill_page mem 0 m₁)
    elim mapped [
      | true ↦ alloc_from kernel_end n pagetable (a + page_size) oldsz newsz xperm m₂
      | false ↦ do
        m₃ ← kfree kernel_end mem m₂
        (sz, m₄) ← uvmdealloc kernel_end pagetable a oldsz m₃
        ok (0, m₄)
    ]
]

unfoldable pub uvmalloc :
    (kernel_end pagetable oldsz newsz xperm : ℕ) → Memory → Outcome (ℕ × Memory)
uvmalloc kernel_end pagetable oldsz newsz xperm m =
    if ltb newsz oldsz
    then ok (oldsz, m)
    else let a = round_up oldsz in
      alloc_from kernel_end ((newsz - a + page_size - 1) / page_size) pagetable a a newsz xperm m

-- The loop of `freewalk` with n entries left, from entry i on
unfoldable pub free_entries :
    (below : ℕ → Memory → Outcome Memory) (n i pagetable : ℕ) → Memory → Outcome Memory
free_entries below zero i pagetable m = ok m
free_entries below (suc n) i pagetable m =
    let pte = m.entries pagetable i in
    elim (is_valid pte) [
      | false ↦ free_entries below n (i + 1) pagetable m
      | true ↦ if not (pte / 2 % 8 == 0) then panic else do
        m₁ ← below (pte2pa pte) m
        free_entries below n (i + 1) pagetable (store pagetable i 0 m₁)
    ]

-- `freewalk` of tables of `depth` levels at most
unfoldable pub freewalk : (kernel_end depth pagetable : ℕ) → Memory → Outcome Memory
freewalk kernel_end zero pagetable m = panic
freewalk kernel_end (suc depth) pagetable m = do
  m₁ ← free_entries (freewalk kernel_end depth) 512 0 pagetable m
  kfree kernel_end pagetable m₁

unfoldable pub uvmfree : (kernel_end pagetable sz : ℕ) → Memory → Outcome Memory
uvmfree kernel_end pagetable sz m = do
  m₁ ← (if ltb 0 sz then uvmunmap kernel_end pagetable 0 (round_up sz / page_size) true m else ok m)
  freewalk kernel_end 3 pagetable m₁

-- The end of `uvmcopy` at the address i
abbrev pub copy_failed : (kernel_end new i : ℕ) → Memory → Outcome (Bool × Memory)
copy_failed kernel_end new i m = do
  m₁ ← uvmunmap kernel_end new 0 (i / page_size) true m
  ok (false, m₁)

-- The loop of `uvmcopy` with n pages left, from the address i on: true is 0, and false is -1.
unfoldable pub copy_from : (kernel_end n old new i : ℕ) → Memory → Outcome (Bool × Memory)
copy_from kernel_end zero old new i m = ok (true, m)
copy_from kernel_end (suc n) old new i m = do
  (pte, m₁) ← walk false old i m
  elim pte [
    | none ↦ panic
    | some (t, j) ↦
        let e = m₁.entries t j in
        if not (is_valid e) then panic else elim (kalloc m₁) [
          | none ↦ copy_failed kernel_end new i m₁
          | some (mem, m₂) ↦ do
            let copied = record m₂ { bytes = memmove mem (pte2pa e) page_size m₂.bytes }
            (mapped, m₃) ← mappages new i page_size mem (pte_flags e) copied
            elim mapped [
              | true ↦ copy_from kernel_end n old new (i + page_size) m₃
              | false ↦ do m₄ ← kfree kernel_end mem m₃; copy_failed kernel_end new i m₄
            ]
        ]
  ]

unfoldable pub uvmcopy : (kernel_end old new sz : ℕ) → Memory → Outcome (Bool × Memory)
uvmcopy kernel_end old new sz m =
    copy_from kernel_end ((sz + page_size - 1) / page_size) old new 0 m

unfoldable pub uvmclear : (pagetable va : ℕ) → Memory → Outcome Memory
uvmclear pagetable va m = do
  (pte, m₁) ← walk false pagetable va m
  elim pte [
    | none ↦ panic
    | some (t, i) ↦ let e = m₁.entries t i in ok (store t i (e - e / 16 % 2 * 16) m₁)
  ]
