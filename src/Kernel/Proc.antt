-- ===== src/Kernel/Proc.antt =====
-- kernel/proc.h and the table of kernel/proc.c: the process records, the kernel state that the
-- functions of proc.c share, and what they use of the other files of the kernel.
pub mod Locks
pub mod Wakeup
pub mod Alloc
pub mod Fork
pub mod Sleep
pub mod Exit
mod Tests
use Prim.Native.String.{String}
use system_call_enhancement.Base.{
  ℕ, zero, suc, ◌+◌, ◌-◌, ◌*◌, ◌==◌, if◌then◌else◌, Bool, true, false, Option, none, some, List, [],
  ◌∷◌, replicate, get_elem?, get_elem?-set_self, set, All, length, ◌<◌, ◌≡◌, refl,
}
use system_call_enhancement.Base.Int.{ℤ, pos}
use system_call_enhancement.Kernel.Spinlock.Nesting.{IsFree}
use system_call_enhancement.Kernel.Spinlock.{
  Outcome, ok, panic, ◌>>=◌, Spinlock, Hart, initlock, acquire, release,
}

-- kernel/param.h, kernel/riscv.h, kernel/memlayout.h
abbrev pub nproc : ℕ
nproc = 64

abbrev pub nofile : ℕ
nofile = 16

abbrev pub page_size : ℕ
page_size = 4096

-- `MAXVA`, `TRAMPOLINE`, `TRAPFRAME` and `KSTACK`
abbrev pub trampoline_va : ℕ
trampoline_va = 0x4000000000 - page_size

abbrev pub trapframe_va : ℕ
trapframe_va = trampoline_va - page_size

abbrev pub kstack_va : ℕ → ℕ
kstack_va p = trampoline_va - (p + 1) * 2 * page_size

-- `enum procstate`
pub data ProcState : Type 0 where
  unused used sleeping runnable running zombie : ProcState

abbrev pub same_state : ProcState → ProcState → Bool
same_state unused unused = true
same_state used used = true
same_state sleeping sleeping = true
same_state runnable runnable = true
same_state running running = true
same_state zombie zombie = true
same_state _ _ = false

-- The addresses that proc.c and sysproc.c sleep on: a process record, `ticks`, and any other.
pub data Chan : Type 0 where
  of_proc : ℕ → Chan
  of_ticks : Chan
  other : ℕ → Chan

-- Equality of two `void *`, `none` being 0.
abbrev pub same_chan : Option Chan → Option Chan → Bool
same_chan none none = true
same_chan (some (of_proc i)) (some (of_proc j)) = i == j
same_chan (some of_ticks) (some of_ticks) = true
same_chan (some (other i)) (some (other j)) = i == j
same_chan _ _ = false

-- Equality of two `struct proc *`, as indices into the table.
abbrev pub same_proc : Option ℕ → Option ℕ → Bool
same_proc none none = true
same_proc (some i) (some j) = i == j
same_proc _ _ = false

-- `struct context`: `s0` to `s11` are one list.
pub record Context : Type 0 where
  pub ra : ℕ
  pub sp : ℕ
  pub saved : List ℕ

-- What `memset` to 0 leaves of a context.
abbrev pub zero_context : Context
zero_context = record { ra = 0; sp = 0; saved = replicate 12 0 }

-- `struct proc`. Pointers to records are indices into their tables, a null pointer is `none`; a
-- page table and a trapframe are physical addresses.
pub record Proc : Type 0 where
  pub lock : Spinlock
  pub state : ProcState
  pub chan : Option Chan
  pub killed : Bool
  pub xstate : ℤ
  pub pid : ℤ
  pub parent : Option ℕ
  pub kstack : ℕ
  pub sz : ℕ
  pub pagetable : Option ℕ
  pub trapframe : Option ℕ
  pub context : Context
  pub ofile : List (Option ℕ)
  pub cwd : Option ℕ
  pub name : String
  pub priority : ℤ
  pub total_time : ℕ
  pub idle_time : ℕ

-- A record of static storage: all zero.
abbrev pub zero_proc : Proc
zero_proc = record {
  lock = record { locked = false; name = ""; cpu = none };
  state = unused;
  chan = none;
  killed = false;
  xstate = pos 0;
  pid = pos 0;
  parent = none;
  kstack = 0;
  sz = 0;
  pagetable = none;
  trapframe = none;
  context = zero_context;
  ofile = replicate nofile none;
  cwd = none;
  name = "";
  priority = pos 0;
  total_time = 0;
  idle_time = 0;
}

-- The global state of proc.c as one CPU sees it, with `tickslock` and `ticks` of kernel/trap.c.
-- `world` is the memory and the file system behind `Services`.
pub record Kernel (W : Type 0) : Type 0 where
  pub hart : Hart
  pub table : List Proc
  pub nextpid : ℤ
  pub initproc : Option ℕ
  pub pid_lock : Spinlock
  pub wait_lock : Spinlock
  pub tickslock : Spinlock
  pub ticks : ℕ
  pub world : W

-- What proc.c calls of kernel/kalloc.c, vm.c, file.c, fs.c and log.c. A `Bool` is true for success.
pub record Services (W : Type 0) : Type 0 where
  -- the addresses of `trampoline` (kernel/trampoline.S) and of `forkret`
  pub trampoline : ℕ
  pub forkret : ℕ
  pub kalloc : W → Option ℕ × W
  pub kfree : ℕ → W → W
  pub uvmcreate : W → Option ℕ × W
  pub mappages : (pagetable va size pa perm : ℕ) → W → Bool × W
  pub uvmunmap : (pagetable va npages : ℕ) → Bool → W → W
  pub uvmfree : (pagetable sz : ℕ) → W → W
  pub uvmcopy : (old new sz : ℕ) → W → Bool × W
  -- the new size, 0 for a failure
  pub uvmalloc : (pagetable oldsz newsz perm : ℕ) → W → ℕ × W
  pub uvmdealloc : (pagetable oldsz newsz : ℕ) → W → ℕ × W
  pub copyout_int : (pagetable addr : ℕ) → ℤ → W → Bool × W
  pub copy_trapframe : (dst src : ℕ) → W → W
  pub set_a0 : (trapframe a0 : ℕ) → W → W
  pub filedup : ℕ → W → W
  pub fileclose : ℕ → W → W
  pub idup : ℕ → W → W
  pub iput : ℕ → W → W
  pub begin_op : W → W
  pub end_op : W → W

-- The loop of `procinit`, from index i on.
procinit_from : ℕ → List Proc → List Proc
procinit_from i [] = []
procinit_from i (p ∷ ps) =
    record p { lock = initlock "proc"; state = unused; kstack = kstack_va i }
    ∷ procinit_from (suc i) ps

unfoldable pub procinit : {W : Type 0} → Kernel W → Kernel W
unfolding procinit_from initlock
procinit k = record k {
  pid_lock = initlock "nextpid";
  wait_lock = initlock "wait_lock";
  table = procinit_from 0 k.table;
}

-- `*p` for a pointer into the table; one that points nowhere is a fault.
unfoldable pub deref : List Proc → ℕ → Outcome Proc
deref ps i = elim (get_elem? ps i) [ none ↦ panic | some p ↦ ok p ]

-- The address in a pointer.
abbrev pub address : Option ℕ → ℕ
address none = 0
address (some a) = a

-- `acquire(&p->lock)` and `release(&p->lock)`
unfoldable pub lock_proc : {W : Type 0} → ℕ → Kernel W → Outcome (Kernel W)
unfolding deref
lock_proc i k = do
  p ← deref k.table i
  (h, lk) ← acquire k.hart p.lock
  ok (record k { hart = h; table = set k.table i (record p { lock = lk }) })

unfoldable pub unlock_proc : {W : Type 0} → ℕ → Kernel W → Outcome (Kernel W)
unfolding deref
unlock_proc i k = do
  p ← deref k.table i
  (h, lk) ← release k.hart p.lock
  ok (record k { hart = h; table = set k.table i (record p { lock = lk }) })

-- `acquire(&wait_lock)` and `release(&wait_lock)`
unfoldable pub lock_wait : {W : Type 0} → Kernel W → Outcome (Kernel W)
lock_wait k = do (h, lk) ← acquire k.hart k.wait_lock; ok (record k { hart = h; wait_lock = lk })

unfoldable pub unlock_wait : {W : Type 0} → Kernel W → Outcome (Kernel W)
unlock_wait k = do (h, lk) ← release k.hart k.wait_lock; ok (record k { hart = h; wait_lock = lk })

-- No lock of the table is held.
abbrev pub AllFree : List Proc → Type 0
AllFree = All (λ p. IsFree p.lock)

pub deref-set : (ps : List Proc) (i : ℕ) (p : Proc) → i < length ps → deref (set ps i p) i ≡ ok p
unfolding deref
deref-set ps i p h = rw (get_elem?-set_self ps i p h, deref)

pub deref_lem : (ps : List Proc) (i : ℕ) {p : Proc} → get_elem? ps i ≡ some p → deref ps i ≡ ok p
unfolding deref
deref_lem ps i e = rw (e, deref)
