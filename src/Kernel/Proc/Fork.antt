-- ===== src/Kernel/Proc/Fork.antt =====
-- `fork`, `sfork` and `growproc` of kernel/proc.c.
pub mod Parts
pub mod Effect
pub mod Shared
use system_call_enhancement.Base.{
  ℕ, zero, suc, ◌+◌, ◌-◌, ◌%◌, ◌^◌, ◌==◌, not, if◌then◌else◌, Bool, true, false, Option, none, some,
  List, [], ◌∷◌, set,
}
use system_call_enhancement.Base.Int.{ℤ, pos, negsuc, pos_part, neg_part, ltb_ℤ}
use system_call_enhancement.Kernel.Spinlock.{
  Outcome, ok, panic, ◌>>=◌, Hart, acquire, release, myproc,
}
use system_call_enhancement.Kernel.Proc.{
  ProcState, Proc, Context, Kernel, Services, same_state, deref, address, lock_proc, unlock_proc,
  lock_wait, unlock_wait,
}
use system_call_enhancement.Kernel.Proc.Alloc.{freeproc, allocproc}

-- `myproc` for a caller that dereferences the result.
unfoldable pub current : {W : Type 0} → Kernel W → Outcome (ℕ × Kernel W)
current k = do
  (me, h) ← myproc k.hart
  elim me [ none ↦ panic | some i ↦ ok (i, record k { hart = h }) ]

-- The end of `fork`: np, at index i, gets its parent and becomes RUNNABLE.
unfoldable pub publish : {W : Type 0} → (me i : ℕ) → Kernel W → Outcome (Kernel W)
publish me i k = do
  k₁ ← unlock_proc i k
  k₂ ← lock_wait k₁
  np ← deref k₂.table i
  k₃ ← unlock_wait (record k₂ { table = set k₂.table i (record np { parent = some me }) })
  k₄ ← lock_proc i k₃
  np' ← deref k₄.table i
  unlock_proc i (record k₄ { table = set k₄.table i (record np' { state = ProcState.runnable }) })

-- The assignments of `sfork` to the new process, from the caller p at index me.
abbrev pub share : ℕ → Proc → Proc → Proc
share me p np = record np {
  sz = p.sz;
  pagetable = p.pagetable;
  parent = some me;
  state = ProcState.runnable;
  context = p.context;
}

-- The sum of a `uint64` and an `int`.
abbrev pub add_int : ℕ → ℤ → ℕ
add_int sz n = (sz + pos_part n + 2 ^ 64 - neg_part n % 2 ^ 64) % 2 ^ 64

-- `PTE_W`
abbrev pub pte_w : ℕ
pte_w = 4

module _ {W : Type 0} (s : Services W) where
  -- The loop of `fork` over the open files: `theirs` are the parent's, `ours` the child's.
  unfoldable pub dup_files : (theirs ours : List (Option ℕ)) → W → List (Option ℕ) × W
  dup_files (some f ∷ fs) (_ ∷ gs) w =
      let (hs, w₁) = dup_files fs gs (s.filedup f w) in (some f ∷ hs, w₁)
  dup_files (none ∷ fs) (g ∷ gs) w = let (hs, w₁) = dup_files fs gs w in (g ∷ hs, w₁)
  dup_files _ gs w = (gs, w)

  -- What `fork` copies from p to the new process np before it publishes np.
  unfoldable pub inherit : Proc → Proc → W → Proc × W
  inherit p np w =
      let w₁ =
        s.set_a0 (address np.trapframe) 0
          (s.copy_trapframe (address np.trapframe) (address p.trapframe) w) in
      let (files, w₂) = dup_files p.ofile np.ofile w₁ in
      (
        record np { sz = p.sz; ofile = files; cwd = p.cwd; name = p.name },
        s.idup (address p.cwd) w₂,
      )

  -- `fork` once `allocproc` has given the slot i.
  unfoldable pub fork_into : (me i : ℕ) → Kernel W → Outcome (ℤ × Kernel W)
  fork_into me i k = do
    p ← deref k.table me
    np ← deref k.table i
    let (copied, w₁) = s.uvmcopy (address p.pagetable) (address np.pagetable) p.sz k.world
    let (np₁, w₂) = inherit p np w₁
    let failed = do
      k₁ ← freeproc s i (record k { world = w₁ })
      k₂ ← unlock_proc i k₁
      ok (negsuc 0, k₂)
    let done = do
      k₁ ← publish me i (record k { table = set k.table i np₁; world = w₂ })
      ok (np₁.pid, k₁)
    if copied then done else failed

  unfoldable pub fork : Kernel W → Outcome (ℤ × Kernel W)
  fork k = do
    (me, k₁) ← current k
    (slot, k₂) ← allocproc s k₁
    elim slot [ none ↦ ok (negsuc 0, k₂) | some i ↦ fork_into me i k₂ ]

  -- `sfork` calls `myproc` for each of the four fields it copies; each call is `current`.
  unfoldable pub sfork : Kernel W → Outcome (ℤ × Kernel W)
  sfork k = do
    (slot, k₁) ← allocproc s k
    elim slot [
      | none ↦ ok (negsuc 0, k₁)
      | some i ↦ do
        (_, k₂) ← current k₁
        (_, k₃) ← current k₂
        (_, k₄) ← current k₃
        (me, k₅) ← current k₄
        p ← deref k₅.table me
        np ← deref k₅.table i
        ok (np.pid, record k₅ { table = set k₅.table i (share me p np) })
    ]

  -- The size, and whether `growproc` goes on to store it.
  unfoldable pub resize : Proc → ℤ → W → Bool × ℕ × W
  resize p n w =
      let (grown, w₁) = s.uvmalloc (address p.pagetable) p.sz (add_int p.sz n) pte_w w in
      let (shrunk, w₂) = s.uvmdealloc (address p.pagetable) p.sz (add_int p.sz n) w in
      if ltb_ℤ (pos 0) n
      then (not (grown == 0), grown, w₁)
      else if ltb_ℤ n (pos 0)
      then (true, shrunk, w₂)
      else (true, p.sz, w)

  unfoldable pub growproc : ℤ → Kernel W → Outcome (ℤ × Kernel W)
  growproc n k = do
    (me, k₁) ← current k
    p ← deref k₁.table me
    let (stored, sz, w) = resize p n k₁.world
    let k₂ = record k₁ { world = w; table = set k₁.table me (record p { sz = sz }) }
    if stored then ok (pos 0, k₂) else ok (negsuc 0, record k₁ { world = w })
