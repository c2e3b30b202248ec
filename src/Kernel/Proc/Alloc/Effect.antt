-- ===== src/Kernel/Proc/Alloc/Effect.antt =====
-- What `allocproc` of kernel/proc.c does when no lock is held: the state in which it leaves the
-- kernel when it succeeds and when an allocation fails.
use system_call_enhancement.Base.{
  ℕ, ◌+◌, Option, none, some, [], replicate, get_elem?, set, ◌≡◌, refl, ◌≢◌, set-set,
  get_elem?-set_self, lt-length_of_get_elem?,
}
use native.Mathlib.Nat.{zero-add}
use system_call_enhancement.Base.Int.{ℤ, pos, ◌+ℤ◌}
use system_call_enhancement.Kernel.Spinlock.{ok, Hart, push_off}
use system_call_enhancement.Kernel.Spinlock.Nesting.{
  IsNested, IsFree, settle, push_off-IsNested, settle-push_off, release-held_by,
}
use system_call_enhancement.Kernel.Proc.{
  page_size, AllFree, ProcState, Proc, Kernel, Services, deref-set, deref_lem, unlock_proc,
}
use system_call_enhancement.Kernel.Proc.Locks.{locked_by, AllFree-get_elem?}
use system_call_enhancement.Kernel.Proc.Alloc.{
  proc_pagetable, free_pages, cleared, freeproc, give_up, set_context, init_found, allocproc,
}
use system_call_enhancement.Kernel.Proc.Alloc.Slot.{
  first_unused, find_unused-some, find_unused_table, allocpid_lem,
}

-- The new process of `allocproc`, from what the slot held.
abbrev pub fresh_proc : {W : Type 0} → Services W → ℤ → (frame root : ℕ) → Proc → Proc
fresh_proc s pid frame root q =
    set_context s (record q {
      pid = pid;
      state = ProcState.used;
      trapframe = some frame;
      pagetable = some root;
    })

-- The process for which `allocproc` asks `proc_pagetable` for a page table.
abbrev pub framed : ℤ → Option ℕ → Proc → Proc
framed pid frame q = record q { pid = pid; state = ProcState.used; trapframe = frame }

module _ {W : Type 0} (s : Services W) where
  init_found_ok :
      (i : ℕ) (k : Kernel W) (q : Proc) (frame root : ℕ) (w₁ w₂ : W)
      → IsNested k.hart
      → IsFree k.pid_lock
      → get_elem? k.table i ≡ some q
      → s.kalloc k.world ≡ (some frame, w₁)
      → proc_pagetable s (framed k.nextpid (some frame) q) w₁ ≡ (some root, w₂)
      → init_found s i k
        ≡ ok (
          some i,
          record k {
            hart = settle k.hart;
            nextpid = k.nextpid +ℤ pos 1;
            table = set k.table i (fresh_proc s k.nextpid frame root q);
            world = w₂;
          },
        )
  unfolding init_found proc_pagetable
  init_found_ok i k q frame root w₁ w₂ n free e ek ep =
      simp (allocpid_lem k n free, deref_lem k.table i e, ek, ep)

  give_up_lem :
      (i : ℕ) (k : Kernel W) (h : Hart) (p : Proc)
      → IsNested h
      → k.hart ≡ push_off h
      → IsFree p.lock
      → get_elem? k.table i ≡ some (locked_by h.id p)
      → give_up s i k
        ≡ ok (
          none,
          record k {
            hart = settle h;
            table = set k.table i (cleared s p);
            world = free_pages s p k.world;
          },
        )
  unfolding give_up freeproc unlock_proc free_pages
  give_up_lem i k h p n eh free e = simp (
    deref_lem k.table i e,
    deref-set k.table i (locked_by h.id (cleared s p)) (lt-length_of_get_elem? k.table i e),
    set-set,
    eh,
    release-held_by p.lock n free,
  )

  module _ (k : Kernel W) (n : IsNested k.hart) (free : AllFree k.table) where
    allocproc_found :
        (i : ℕ) {q : Proc}
        → first_unused k.table ≡ some i
        → get_elem? k.table i ≡ some q
        → allocproc s k
          ≡ init_found s i
              (record k { hart = push_off k.hart; table = set k.table i (locked_by k.hart.id q) })
    unfolding allocproc
    allocproc_found i {q} first e = simp (find_unused-some 0 i k.table n free first e, zero-add)

    -- `allocproc` with no UNUSED process returns 0, holds no lock, and changes no process.
    pub allocproc_full :
        k.table ≢ []
        → first_unused k.table ≡ none
        → allocproc s k ≡ ok (none, record k { hart = settle k.hart })
    unfolding allocproc
    allocproc_full some_proc first = simp (find_unused_table k.table n free some_proc first)

    -- `allocproc` with no lock of the table and not `pid_lock` held takes the first UNUSED process,
    -- gives it `nextpid`, the state USED, the trapframe and the page table that the allocators
    -- return and a context that starts at `forkret` on its kernel stack, and returns with that
    -- process locked and no other; no other process changes.
    pub allocproc_ok :
        (i : ℕ) (q : Proc) (frame root : ℕ) (w₁ w₂ : W)
        → IsFree k.pid_lock
        → first_unused k.table ≡ some i
        → get_elem? k.table i ≡ some q
        → s.kalloc k.world ≡ (some frame, w₁)
        → proc_pagetable s (framed k.nextpid (some frame) (locked_by k.hart.id q)) w₁
          ≡ (some root, w₂)
        → allocproc s k
          ≡ ok (
            some i,
            record k {
              hart = push_off k.hart;
              nextpid = k.nextpid +ℤ pos 1;
              table = set k.table i (record (locked_by k.hart.id q) {
                pid = k.nextpid;
                state = ProcState.used;
                trapframe = some frame;
                pagetable = some root;
                context = record {
                  ra = s.forkret;
                  sp = q.kstack + page_size;
                  saved = replicate 12 0;
                };
              });
              world = w₂;
            },
          )
    allocproc_ok i q frame root w₁ w₂ free_pid first e ek ep = simp (
      allocproc_found i first e,
      init_found_ok i
          (record k { hart = push_off k.hart; table = set k.table i (locked_by k.hart.id q) })
          (locked_by k.hart.id q) frame root w₁ w₂ (push_off-IsNested k.hart) free_pid
          (get_elem?-set_self k.table i (locked_by k.hart.id q)
            (lt-length_of_get_elem? k.table i e))
          ek ep,
      set-set,
      settle-push_off,
    )

    -- If every lock is free, slot i is the first UNUSED one, and there is no page for the
    -- trapframe, then `allocproc` returns 0 and holds no lock: the slot is reset and UNUSED again,
    -- `freeproc` gives back what hung from it, and the pid is used up.
    pub allocproc_no_frame :
        (i : ℕ) (q : Proc) (w₁ : W)
        → IsFree k.pid_lock
        → first_unused k.table ≡ some i
        → get_elem? k.table i ≡ some q
        → s.kalloc k.world ≡ (none, w₁)
        → allocproc s k
          ≡ ok (
            none,
            record k {
              hart = settle k.hart;
              nextpid = k.nextpid +ℤ pos 1;
              table = set k.table i (cleared s q);
              world = free_pages s (framed k.nextpid none q) w₁;
            },
          )
    unfolding init_found
    allocproc_no_frame i q w₁ free_pid first e ek = simp (
      allocproc_found i first e,
      allocpid_lem
          (record k { hart = push_off k.hart; table = set k.table i (locked_by k.hart.id q) })
          (push_off-IsNested k.hart) free_pid,
      deref-set k.table i (locked_by k.hart.id q) (lt-length_of_get_elem? k.table i e),
      settle-push_off,
      set-set,
      ek,
      give_up_lem i
          (record k {
            hart = push_off k.hart;
            nextpid = k.nextpid +ℤ pos 1;
            table = set k.table i (locked_by k.hart.id (framed k.nextpid none q));
            world = w₁;
          })
          k.hart (framed k.nextpid none q) n refl (AllFree-get_elem? k.table i free e)
          (get_elem?-set_self k.table i (locked_by k.hart.id (framed k.nextpid none q))
            (lt-length_of_get_elem? k.table i e)),
    )

    -- If the trapframe is allocated but `proc_pagetable` fails, `allocproc` returns 0 likewise, and
    -- the trapframe is among what it gives back.
    pub allocproc_no_pagetable :
        (i : ℕ) (q : Proc) (frame : ℕ) (w₁ w₂ : W)
        → IsFree k.pid_lock
        → first_unused k.table ≡ some i
        → get_elem? k.table i ≡ some q
        → s.kalloc k.world ≡ (some frame, w₁)
        → proc_pagetable s (framed k.nextpid (some frame) (locked_by k.hart.id q)) w₁ ≡ (none, w₂)
        → allocproc s k
          ≡ ok (
            none,
            record k {
              hart = settle k.hart;
              nextpid = k.nextpid +ℤ pos 1;
              table = set k.table i (cleared s q);
              world = s.kfree frame w₂;
            },
          )
    unfolding init_found free_pages proc_pagetable
    allocproc_no_pagetable i q frame w₁ w₂ free_pid first e ek ep = simp (
      allocproc_found i first e,
      allocpid_lem
          (record k { hart = push_off k.hart; table = set k.table i (locked_by k.hart.id q) })
          (push_off-IsNested k.hart) free_pid,
      deref-set k.table i (locked_by k.hart.id q) (lt-length_of_get_elem? k.table i e),
      settle-push_off,
      set-set,
      ek,
      ep,
      give_up_lem i
          (record k {
            hart = push_off k.hart;
            nextpid = k.nextpid +ℤ pos 1;
            table = set k.table i (
                locked_by k.hart.id
                  (record (framed k.nextpid (some frame) q) { pagetable = none }));
            world = w₂;
          })
          k.hart (record (framed k.nextpid (some frame) q) { pagetable = none }) n refl
          (AllFree-get_elem? k.table i free e)
          (get_elem?-set_self k.table i
            (locked_by k.hart.id (record (framed k.nextpid (some frame) q) { pagetable = none }))
            (lt-length_of_get_elem? k.table i e)),
    )
