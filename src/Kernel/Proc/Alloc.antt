-- ===== src/Kernel/Proc/Alloc.antt =====
-- `allocpid`, `allocproc`, `freeproc`, `proc_pagetable` and `proc_freepagetable` of kernel/proc.c.
pub mod Slot
pub mod Effect
use system_call_enhancement.Base.{
  ℕ, zero, suc, ◌+◌, if◌then◌else◌, Bool, true, false, Option, none, some, List, [], ◌∷◌, set,
}
use system_call_enhancement.Base.Int.{ℤ, pos, ◌+ℤ◌}
use system_call_enhancement.Kernel.Spinlock.{Outcome, ok, panic, ◌>>=◌, Hart, acquire, release}
use system_call_enhancement.Kernel.Proc.{
  ProcState, Proc, Context, Kernel, Services, same_state, deref, address, lock_proc, unlock_proc,
  page_size, trampoline_va, trapframe_va, zero_context,
}

-- `PTE_R | PTE_X` and `PTE_R | PTE_W` of kernel/riscv.h
abbrev pub read_execute : ℕ
read_execute = 10

abbrev pub read_write : ℕ
read_write = 6

unfoldable pub allocpid : {W : Type 0} → Kernel W → Outcome (ℤ × Kernel W)
allocpid k = do
  (h₁, lk₁) ← acquire k.hart k.pid_lock
  (h₂, lk₂) ← release h₁ lk₁
  ok (k.nextpid, record k { hart = h₂; pid_lock = lk₂; nextpid = k.nextpid +ℤ pos 1 })

-- The loop of `allocproc`: the index of the first UNUSED process, which stays locked.
unfoldable pub find_unused : ℕ → Hart → List Proc → Outcome (Option ℕ × Hart × List Proc)
find_unused i h [] = ok (none, h, [])
find_unused i h (p ∷ ps) = do
  (h₁, lk₁) ← acquire h p.lock
  let rest = do
    (h₂, lk₂) ← release h₁ lk₁
    (r, h₃, ps₃) ← find_unused (suc i) h₂ ps
    ok (r, h₃, record p { lock = lk₂ } ∷ ps₃)
  if same_state p.state ProcState.unused
      then ok (some i, h₁, record p { lock = lk₁ } ∷ ps)
      else rest

module _ {W : Type 0} (s : Services W) where
  unfoldable pub proc_pagetable : Proc → W → Option ℕ × W
  proc_pagetable p w =
      let (root, w₁) = s.uvmcreate w in
      elim root [
        | none ↦ (none, w₁)
        | some pt ↦
            let (mapped, w₂) = s.mappages pt trampoline_va page_size s.trampoline read_execute w₁ in
            let (mapped', w₃) =
              s.mappages pt trapframe_va page_size (address p.trapframe) read_write w₂ in
            if mapped
            then (if mapped'
                then (some pt, w₃)
                else (none, s.uvmfree pt 0 (s.uvmunmap pt trampoline_va 1 false w₃)))
            else (none, s.uvmfree pt 0 w₂)
      ]

  unfoldable pub proc_freepagetable : ℕ → ℕ → W → W
  proc_freepagetable pt sz w =
      s.uvmfree pt sz (s.uvmunmap pt trapframe_va 1 false (s.uvmunmap pt trampoline_va 1 false w))

  -- The pages that `freeproc` gives back.
  unfoldable pub free_pages : Proc → W → W
  unfolding proc_freepagetable
  free_pages p w =
      let w₁ : W = elim p.trapframe [ none ↦ w | some tf ↦ s.kfree tf w ] in
      elim p.pagetable [ none ↦ w₁ | some pt ↦ proc_freepagetable pt p.sz w₁ ]

  -- The fields that `freeproc` resets.
  abbrev pub cleared : Proc → Proc
  cleared p = record p {
    trapframe = none;
    pagetable = none;
    sz = 0;
    pid = pos 0;
    parent = none;
    name = "";
    chan = none;
    killed = false;
    xstate = pos 0;
    state = ProcState.unused;
  }

  unfoldable pub freeproc : ℕ → Kernel W → Outcome (Kernel W)
  freeproc i k = do
    p ← deref k.table i
    ok (record k { table = set k.table i (cleared p); world = free_pages p k.world })

  -- `freeproc(p); release(&p->lock); return 0;`
  unfoldable pub give_up : ℕ → Kernel W → Outcome (Option ℕ × Kernel W)
  give_up i k = do k₁ ← freeproc i k; k₂ ← unlock_proc i k₁; ok (none, k₂)

  -- The part of `allocproc` behind the allocation of the page table.
  abbrev pub set_context : Proc → Proc
  set_context p = record p {
    context = record zero_context { ra = s.forkret; sp = p.kstack + page_size };
  }

  -- `found:` of `allocproc`
  unfoldable pub init_found : ℕ → Kernel W → Outcome (Option ℕ × Kernel W)
  init_found i k = do
    (pid, k₁) ← allocpid k
    p₁ ← deref k₁.table i
    let p₂ = record p₁ { pid = pid; state = ProcState.used }
    let (frame, w₂) = s.kalloc k₁.world
    let p₃ = record p₂ { trapframe = frame }
    let k₃ = record k₁ { table = set k₁.table i p₃; world = w₂ }
    let (root, w₄) = proc_pagetable p₃ w₂
    let p₄ = record p₃ { pagetable = root }
    let k₄ = record k₁ { table = set k₁.table i p₄; world = w₄ }
    let k₅ = record k₁ { table = set k₁.table i (set_context p₄); world = w₄ }
    elim frame [
      | none ↦ give_up i k₃
      | some _ ↦ elim root [ none ↦ give_up i k₄ | some _ ↦ ok (some i, k₅) ]
    ]

  unfoldable pub allocproc : Kernel W → Outcome (Option ℕ × Kernel W)
  allocproc k = do
    (slot, h, ps) ← find_unused 0 k.hart k.table
    let k₁ = record k { hart = h; table = ps }
    elim slot [ none ↦ ok (none, k₁) | some i ↦ init_found i k₁ ]
