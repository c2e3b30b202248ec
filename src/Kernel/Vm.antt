-- ===== src/Kernel/Vm.antt =====
-- kernel/vm.c, with the page-table macros of kernel/riscv.h: Sv39 page tables of three levels. A
-- page of memory is read as 512 entries if it is a page table, or as bytes; `Memory` keeps both
-- readings of every page, and the pages that `kalloc` can give, as Kernel.Kalloc links them. A
-- pointer to an entry is the table's address with an index.
pub mod Roles
pub mod Link
pub mod Walk
pub mod Leaf
pub mod Mapping
pub mod Mappages
pub mod User
pub mod Copy
pub mod Lookup
pub mod Copyin
pub mod Freed
pub mod Unmap
pub mod Unmaps
pub mod Boot
mod Tests
use system_call_enhancement.Base.{
  ℕ, zero, suc, ◌+◌, ◌-◌, ◌*◌, ◌/◌, ◌%◌, ◌^◌, ◌==◌, ltb, leb, if◌then◌else◌, Bool, true, false, not,
  ◌&&◌, ◌||◌, List, [], ◌∷◌, Option, none, some,
}
use system_call_enhancement.Base.Bits.{bit}
use Prim.Native.Nat.{bit_or}
use system_call_enhancement.Kernel.Spinlock.{Outcome, ok, panic, ◌>>=◌}
use system_call_enhancement.Kernel.Proc.{page_size}
use system_call_enhancement.Kernel.Text.{Bytes, memset}

-- `MAXVA`
abbrev pub max_va : ℕ
max_va = 2 ^ 38

-- `PA2PTE`
abbrev pub pa2pte : ℕ → ℕ
pa2pte pa = pa / 4096 * 1024

-- `PTE2PA`
abbrev pub pte2pa : ℕ → ℕ
pte2pa pte = pte / 1024 * 4096

-- `PTE_FLAGS`
abbrev pub pte_flags : ℕ → ℕ
pte_flags pte = pte % 1024

-- `PX`
abbrev pub px : (level va : ℕ) → ℕ
px level va = va / 2 ^ (12 + 9 * level) % 512

-- `PTE_V`, `PTE_W` and `PTE_U` of an entry
abbrev pub is_valid : ℕ → Bool
is_valid pte = bit 0 pte

abbrev pub is_writable : ℕ → Bool
is_writable pte = bit 2 pte

abbrev pub is_user : ℕ → Bool
is_user pte = bit 4 pte

-- The pages that are page tables, entry by entry, and the bytes of all other pages; a write of
-- bytes is one that hits no page table. `fill_page`, which makes a table of a page and a page of a
-- table, writes both.
pub record Memory : Type 0 where
  pub entries : (table i : ℕ) → ℕ
  pub bytes : Bytes
  pub pages : List ℕ

-- `memset(p, c, PGSIZE)`
abbrev pub fill_page : (p c : ℕ) → Memory → Memory
fill_page p c m = record m {
  entries = λ t i. if t == p then c * 0x0101010101010101 else m.entries t i;
  bytes = memset p c page_size m.bytes;
}

-- `*pte = x` for the entry i of a table
abbrev pub store : (table i x : ℕ) → Memory → Memory
store table i x m = record m { entries = λ t j. if t == table && j == i then x else m.entries t j }

-- `kalloc`, which fills the page with 5
unfoldable pub kalloc : Memory → Option (ℕ × Memory)
kalloc m = elim m.pages [ [] ↦ none | p ∷ ps ↦ some (p, fill_page p 5 (record m { pages = ps })) ]

-- The loop of `walk` with `level` turns left: the entry, if there is one.
unfoldable pub walk_from : (alloc : Bool) (level table va : ℕ) → Memory → Option (ℕ × ℕ) × Memory
walk_from alloc zero table va m = (some (table, px 0 va), m)
walk_from alloc (suc level) table va m =
    let pte = m.entries table (px (suc level) va) in
    elim (is_valid pte) [
      | true ↦ walk_from alloc level (pte2pa pte) va m
      | false ↦ elim alloc [
        | false ↦ (none, m)
        | true ↦ elim (kalloc m) [
          | none ↦ (none, m)
          | some (p, m₁) ↦
              walk_from alloc level p va
                (store table (px (suc level) va) (bit_or (pa2pte p) 1) (fill_page p 0 m₁))
        ]
      ]
    ]

unfoldable pub walk : (alloc : Bool) (pagetable va : ℕ) → Memory → Outcome (Option (ℕ × ℕ) × Memory)
walk alloc pagetable va m = if leb max_va va then panic else ok (walk_from alloc 2 pagetable va m)

-- What `walkaddr` returns for an entry
abbrev pub user_page : ℕ → ℕ
user_page pte = if is_valid pte then (if is_user pte then pte2pa pte else 0) else 0

unfoldable pub walkaddr : (pagetable va : ℕ) → Memory → Outcome ℕ
walkaddr pagetable va m = if leb max_va va then ok 0 else do
  (pte, m₁) ← walk false pagetable va m
  ok (elim pte [ none ↦ 0 | some (t, i) ↦ user_page (m₁.entries t i) ])

-- The loop of `mappages`, with `fuel` turns at most: it returns true for 0 and false for -1.
unfoldable pub map_from : (fuel pagetable a last pa perm : ℕ) → Memory → Outcome (Bool × Memory)
map_from zero pagetable a last pa perm m = panic
map_from (suc fuel) pagetable a last pa perm m = do
  (pte, m₁) ← walk true pagetable a m
  elim pte [
    | none ↦ ok (false, m₁)
    | some (t, i) ↦
        let m₂ = store t i (bit_or (bit_or (pa2pte pa) perm) 1) m₁ in
        let rest = map_from fuel pagetable (a + page_size) last (pa + page_size) perm m₂ in
        if is_valid (m₁.entries t i) then panic else if a == last then ok (true, m₂) else rest
  ]

-- The loop ends within a turn for each page of the range.
unfoldable pub mappages : (pagetable va size pa perm : ℕ) → Memory → Outcome (Bool × Memory)
mappages pagetable va size pa perm m =
    if not (va % page_size == 0) || (not (size % page_size == 0) || size == 0)
    then panic
    else map_from (size / page_size) pagetable va (va + size - page_size) pa perm m

unfoldable pub kvmmap : (kpgtbl va pa sz perm : ℕ) → Memory → Outcome Memory
kvmmap kpgtbl va pa sz perm m = do
  (mapped, m₁) ← mappages kpgtbl va sz pa perm m
  if mapped then ok m₁ else panic
