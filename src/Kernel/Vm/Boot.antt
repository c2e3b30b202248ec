-- ===== src/Kernel/Vm/Boot.antt =====
-- The kernel's own page table: `kvmmake` of kernel/vm.c with `proc_mapstacks` of kernel/proc.c and
-- the addresses of kernel/memlayout.h. Where the kernel's text ends, and where trampoline.S lies,
-- is the linker's choice. A store through the null pointer is a panic.
use system_call_enhancement.Base.{ℕ, zero, suc, ◌+◌, ◌-◌, none, some}
use system_call_enhancement.Kernel.Spinlock.{Outcome, ok, panic, ◌>>=◌}
use system_call_enhancement.Kernel.Proc.{page_size, trampoline_va, kstack_va, nproc}
use system_call_enhancement.Kernel.Kalloc.{phystop}
use system_call_enhancement.Kernel.Vm.{Memory, fill_page, kalloc, kvmmap}

-- `UART0`, `VIRTIO0`, `PLIC` and `KERNBASE`
abbrev pub uart0 : ℕ
uart0 = 0x10000000

abbrev pub virtio0 : ℕ
virtio0 = 0x10001000

abbrev pub plic : ℕ
plic = 0x0c000000

abbrev pub kern_base : ℕ
kern_base = 0x80000000

-- The loop of `proc_mapstacks` over n processes from index i on; PTE_R | PTE_W is 6.
unfoldable pub map_stacks : (n i kpgtbl : ℕ) → Memory → Outcome Memory
map_stacks zero i kpgtbl m = ok m
map_stacks (suc n) i kpgtbl m = elim (kalloc m) [
  | none ↦ panic
  | some (pa, m₁) ↦ do
    m₂ ← kvmmap kpgtbl (kstack_va i) pa page_size 6 m₁
    map_stacks n (i + 1) kpgtbl m₂
]

unfoldable pub proc_mapstacks : (kpgtbl : ℕ) → Memory → Outcome Memory
proc_mapstacks kpgtbl m = map_stacks nproc 0 kpgtbl m

-- `kvmmake`: the page table; PTE_R | PTE_X is 10.
unfoldable pub kvmmake : (etext trampoline : ℕ) → Memory → Outcome (ℕ × Memory)
kvmmake etext trampoline m = elim (kalloc m) [
  | none ↦ panic
  | some (kpgtbl, m₁) ↦ do
    m₂ ← kvmmap kpgtbl uart0 uart0 page_size 6 (fill_page kpgtbl 0 m₁)
    m₃ ← kvmmap kpgtbl virtio0 virtio0 page_size 6 m₂
    m₄ ← kvmmap kpgtbl plic plic 0x4000000 6 m₃
    m₅ ← kvmmap kpgtbl kern_base kern_base (etext - kern_base) 10 m₄
    m₆ ← kvmmap kpgtbl etext etext (phystop - etext) 6 m₅
    m₇ ← kvmmap kpgtbl trampoline_va trampoline page_size 10 m₆
    m₈ ← proc_mapstacks kpgtbl m₇
    ok (kpgtbl, m₈)
]
