-- ===== src/Kernel/Proc/Fork/Effect.antt =====
-- What `fork` of kernel/proc.c leaves behind when no lock is held, on success and on failure.
use system_call_enhancement.Base.{
  ℕ, ◌+◌, ◌∙◌, ◌≡◌, ◌≢◌, refl, true, false, none, some, replicate, length, get_elem?, set, set-set,
  get_elem?-set_self, get_elem?-set_ne, lt-length_of_get_elem?,
}
use system_call_enhancement.Base.Int.{pos, negsuc, ◌+ℤ◌}
use system_call_enhancement.Kernel.Spinlock.{ok, push_off}
use system_call_enhancement.Kernel.Spinlock.Nesting.{
  IsNested, IsFree, settle, settle-IsNested, push_off-settle,
}
use system_call_enhancement.Kernel.Proc.{
  page_size, trapframe_va, trampoline_va, Context, AllFree, ProcState, Proc, Kernel, Services,
  address,
}
use system_call_enhancement.Kernel.Proc.Locks.{locked_by, AllFree-get_elem?}
use system_call_enhancement.Kernel.Proc.Alloc.{proc_pagetable, proc_freepagetable, free_pages}
use system_call_enhancement.Kernel.Proc.Alloc.Slot.{first_unused}
use system_call_enhancement.Kernel.Proc.Alloc.Effect.{fresh_proc, framed, allocproc_ok}
use system_call_enhancement.Kernel.Proc.Fork.{inherit, fork_into, fork}
use system_call_enhancement.Kernel.Proc.Fork.Parts.{
  current_lem, dup_all, inherit_lem, fork_into_ok, fork_into_failed,
}

-- A caller of `fork` or `sfork`, and an allocation that succeeds: p, at index me, runs on the CPU;
-- no lock of the table, nor `pid_lock`, is held; i is the first UNUSED slot, and holds q; the
-- allocators give the trapframe and the page table.
pub record Allocates {W : Type 0} (s : Services W) (k : Kernel W) (me i : ℕ) (p q : Proc)
    (frame root : ℕ) (w₁ w₂ : W) : Type 0 where
  pub nested : IsNested k.hart
  pub free : AllFree k.table
  pub free_pid : IsFree k.pid_lock
  pub caller : k.hart.proc ≡ some me
  pub caller_at : get_elem? k.table me ≡ some p
  pub slot : first_unused k.table ≡ some i
  pub slot_at : get_elem? k.table i ≡ some q
  pub apart : i ≢ me
  pub page : s.kalloc k.world ≡ (some frame, w₁)
  pub pagetable :
      proc_pagetable s (framed k.nextpid (some frame) (locked_by k.hart.id q)) w₁ ≡ (some root, w₂)

module _ {W : Type 0} {s : Services W} {k : Kernel W} {me i : ℕ} {p q : Proc} {frame root : ℕ}
    {w₁ w₂ : W} (a : Allocates s k me i p q frame root w₁ w₂) where
  -- The new process, its lock aside, when `allocproc` returns.
  abbrev pub child : Proc
  child = fresh_proc s k.nextpid frame root q

  -- The kernel when `allocproc` returns to `fork`.
  abbrev pub allocated : Kernel W
  allocated = record k {
    hart = push_off k.hart;
    nextpid = k.nextpid +ℤ pos 1;
    table = set k.table i (locked_by k.hart.id child);
    world = w₂;
  }

  fork-fork_into : fork s k ≡ fork_into s me i allocated
  unfolding fork
  fork-fork_into = simp (
    current_lem k me a.nested a.caller,
    allocproc_ok s (record k { hart = settle k.hart }) (settle-IsNested a.nested) a.free i q frame
        root w₁ w₂ a.free_pid a.slot a.slot_at a.page a.pagetable,
    push_off-settle,
  )

  pub caller-stays : get_elem? allocated.table me ≡ some p
  caller-stays = rw (get_elem?-set_ne k.table (locked_by k.hart.id child) a.apart) a.caller_at

  pub child-stays : get_elem? allocated.table i ≡ some (locked_by k.hart.id child)
  child-stays =
      get_elem?-set_self k.table i (locked_by k.hart.id child)
        (lt-length_of_get_elem? k.table i a.slot_at)

  fork-inherit :
      (w₃ : W)
      → IsFree k.wait_lock
      → s.uvmcopy (address p.pagetable) root p.sz w₂ ≡ (true, w₃)
      → fork s k
        ≡ ok (
          k.nextpid,
          record k {
            hart = settle k.hart;
            nextpid = k.nextpid +ℤ pos 1;
            table = set k.table i (record ((inherit s p child w₃).0) {
              parent = some me;
              state = ProcState.runnable;
            });
            world = (inherit s p child w₃).1;
          },
        )
  fork-inherit w₃ free_wait copied = simp (
    fork-fork_into,
    fork_into_ok s me i allocated k.hart p child w₃ a.nested refl
        (AllFree-get_elem? k.table i a.free a.slot_at) free_wait caller-stays child-stays copied,
    set-set,
  )

  -- A context that starts at `forkret` on the kernel stack of the slot
  abbrev pub started : Context
  started = record { ra = s.forkret; sp = q.kstack + page_size; saved = replicate 12 0 }

  -- `fork` with no lock held, every allocation a success and no open file in the slot returns the
  -- pid that was next. The first UNUSED slot holds the child: RUNNABLE, a child of the caller, with
  -- that pid, the new trapframe and page table, a context that starts at `forkret` on its kernel
  -- stack, and the size, the open files, the directory and the name of the caller. The caller's
  -- trapframe is copied to the child's and its `a0` set to 0, each open file goes through `filedup`
  -- once, in their order, and the directory through `idup`. No other process changes, and no lock
  -- is held.
  pub fork_ok :
      (w₃ : W)
      → IsFree k.wait_lock
      → q.ofile ≡ replicate (length p.ofile) none
      → s.uvmcopy (address p.pagetable) root p.sz w₂ ≡ (true, w₃)
      → fork s k
        ≡ ok (
          k.nextpid,
          record k {
            hart = settle k.hart;
            nextpid = k.nextpid +ℤ pos 1;
            table = set k.table i (record q {
              state = ProcState.runnable;
              parent = some me;
              pid = k.nextpid;
              trapframe = some frame;
              pagetable = some root;
              context = started;
              sz = p.sz;
              ofile = p.ofile;
              cwd = p.cwd;
              name = p.name;
            });
            world = s.idup (address p.cwd) (
                dup_all s p.ofile
                  (s.set_a0 frame 0 (s.copy_trapframe frame (address p.trapframe) w₃)));
          },
        )
  fork_ok w₃ free_wait unopened copied =
      fork-inherit w₃ free_wait copied ∙ rw (inherit_lem s p child w₃ unopened) refl

  -- `fork` whose allocations succeed, with no lock held, and whose copy of the user memory fails
  -- returns -1 and holds no lock; the slot is UNUSED again, with the fields that `freeproc` resets
  -- reset, its trapframe goes to `kfree`, and its page table to `uvmfree` with its two pages at the
  -- top unmapped.
  pub fork_failed :
      (w₃ : W)
      → s.uvmcopy (address p.pagetable) root p.sz w₂ ≡ (false, w₃)
      → fork s k
        ≡ ok (
          negsuc 0,
          record k {
            hart = settle k.hart;
            nextpid = k.nextpid +ℤ pos 1;
            table = set k.table i (record q {
              state = ProcState.unused;
              chan = none;
              killed = false;
              xstate = pos 0;
              pid = pos 0;
              parent = none;
              sz = 0;
              pagetable = none;
              trapframe = none;
              context = started;
              name = "";
            });
            world = s.uvmfree root q.sz (
                s.uvmunmap root trapframe_va 1 false
                  (s.uvmunmap root trampoline_va 1 false (s.kfree frame w₃)));
          },
        )
  unfolding free_pages proc_freepagetable
  fork_failed w₃ copied = simp (
    fork-fork_into,
    fork_into_failed s me i allocated k.hart p child w₃ a.nested refl
        (AllFree-get_elem? k.table i a.free a.slot_at) caller-stays child-stays copied,
    set-set,
  )
