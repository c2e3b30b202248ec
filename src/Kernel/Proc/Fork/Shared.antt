-- ===== src/Kernel/Proc/Fork/Shared.antt =====
-- `sfork` of kernel/proc.c, the call that shares the caller's memory with the new process.
use system_call_enhancement.Base.{
  ℕ, ==_refl, ◌≡◌, some, get_elem?, get_elem?-set_self, lt-length_of_get_elem?, set-set, set,
}
use system_call_enhancement.Kernel.Spinlock.{ok, panic, ◌>>=◌, push_off, holding}
use system_call_enhancement.Kernel.Spinlock.Nesting.{
  acquire_held, settle-push_off, push_off-IsNested,
}
use system_call_enhancement.Kernel.Proc.{Proc, Kernel, Services, deref_lem, lock_proc}
use system_call_enhancement.Kernel.Proc.Locks.{locked_by}
use system_call_enhancement.Kernel.Proc.Alloc.{freeproc, free_pages, cleared, proc_freepagetable}
use system_call_enhancement.Kernel.Proc.Alloc.Effect.{allocproc_ok}
use system_call_enhancement.Kernel.Proc.Fork.{sfork, share}
use system_call_enhancement.Kernel.Proc.Fork.Effect.{
  Allocates, allocated, child, caller-stays, child-stays,
}
use system_call_enhancement.Kernel.Proc.Fork.Parts.{current_lem}

module _ {W : Type 0} {s : Services W} {k : Kernel W} {me i : ℕ} {p q : Proc} {frame root : ℕ}
    {w₁ w₂ : W} (a : Allocates s k me i p q frame root w₁ w₂) where
  -- The kernel when `sfork` returns.
  abbrev pub shared : Kernel W
  shared = record (allocated a) {
    table = set k.table i (share me p (locked_by k.hart.id (child a)));
  }

  -- `sfork` with no lock held and every allocation a success returns the pid that was next. The
  -- first UNUSED slot holds a RUNNABLE process with the size, the page table and the saved context
  -- of the caller; it is still locked by this CPU, which is one `push_off` deeper than before.
  pub sfork_ok : sfork s k ≡ ok (k.nextpid, shared)
  unfolding sfork push_off
  sfork_ok = simp (
    allocproc_ok s k a.nested a.free i q frame root w₁ w₂ a.free_pid a.slot a.slot_at a.page
        a.pagetable,
    current_lem (allocated a) me (push_off-IsNested k.hart) a.caller,
    settle-push_off,
    deref_lem (set k.table i (locked_by k.hart.id (child a))) me (caller-stays a),
    deref_lem (set k.table i (locked_by k.hart.id (child a))) i (child-stays a),
    set-set,
  )

  shared-child : get_elem? shared.table i ≡ some (share me p (locked_by k.hart.id (child a)))
  shared-child =
      get_elem?-set_self k.table i (share me p (locked_by k.hart.id (child a)))
        (lt-length_of_get_elem? k.table i a.slot_at)

  -- After a successful `sfork` the same CPU panics in the next `acquire` of the new process's lock,
  -- as in the loops of `scheduler`, `wakeup`, `kill` and `allocproc`.
  pub sfork-lock_proc : (sfork s k >>= λ (_, k'). lock_proc i k') ≡ panic
  unfolding lock_proc holding push_off
  sfork-lock_proc = simp (
    sfork_ok,
    deref_lem shared.table i shared-child,
    (acquire_held shared.hart (share me p (locked_by k.hart.id (child a))).lock).0
        (==_refl k.hart.id),
  )

  -- `freeproc` on the process that a successful `sfork` made frees the caller's page table and the
  -- memory under it, and neither the caller nor the page table that `allocproc` made is touched.
  pub sfork-freeproc :
      (shared_root : ℕ)
      → p.pagetable ≡ some shared_root
      → (sfork s k >>= λ (_, k'). freeproc s i k')
        ≡ ok (record shared {
          table = set k.table i (cleared s (share me p (locked_by k.hart.id (child a))));
          world = proc_freepagetable s shared_root p.sz (s.kfree frame w₂);
        })
  unfolding freeproc free_pages
  sfork-freeproc shared_root e =
      rw (sfork_ok, deref_lem shared.table i shared-child) (simp (set-set, e))
