-- ===== src/Kernel/Proc/Fork/Parts.antt =====
-- The parts of `fork` of kernel/proc.c: what it copies, how it publishes and how it gives up.
use system_call_enhancement.Base.{
  ℕ, ◌≡◌, refl, true, false, none, some, Option, List, [], ◌∷◌, replicate, length, get_elem?, set,
  set-set, get_elem?-set_self, lt-length_of_get_elem?,
}
use system_call_enhancement.Base.Int.{negsuc}
use system_call_enhancement.Kernel.Spinlock.{ok, Hart, push_off}
use system_call_enhancement.Kernel.Spinlock.Nesting.{
  IsNested, IsFree, settle, push_off-settle, release-held_by, acquire_free, myproc_lem,
}
use system_call_enhancement.Kernel.Proc.{
  ProcState, Proc, Kernel, Services, deref-set, deref_lem, address, lock_proc, unlock_proc,
  unlock_wait,
}
use system_call_enhancement.Kernel.Proc.Locks.{locked_by, unlock_proc_lem, lock_wait_lem}
use system_call_enhancement.Kernel.Proc.Alloc.{cleared, free_pages, freeproc}
use system_call_enhancement.Kernel.Proc.Fork.{current, dup_files, inherit, publish, fork_into}

pub current_lem :
    {W : Type 0} (k : Kernel W) (me : ℕ)
    → IsNested k.hart
    → k.hart.proc ≡ some me
    → current k ≡ ok (me, record k { hart = settle k.hart })
unfolding current
current_lem k me n e = simp (myproc_lem n, e)

publish_lem :
    {W : Type 0} (me i : ℕ) (k : Kernel W) (h : Hart) (np : Proc)
    → IsNested h
    → k.hart ≡ push_off h
    → IsFree np.lock
    → IsFree k.wait_lock
    → get_elem? k.table i ≡ some (locked_by h.id np)
    → publish me i k
      ≡ ok (record k {
        hart = settle h;
        table = set k.table i (record np { parent = some me; state = ProcState.runnable });
      })
unfolding publish unlock_wait unlock_proc lock_proc push_off
publish_lem me i k h np n eh free free_wait e =
    let slot = λ (p : Proc). deref-set k.table i p (lt-length_of_get_elem? k.table i e) in
    simp (
      unlock_proc_lem k i h np n eh free e,
      lock_wait_lem (record k { hart = settle h; table = set k.table i np }) free_wait,
      slot,
      acquire_free (settle h) np.lock free.unlocked,
      push_off-settle,
      release-held_by k.wait_lock n free_wait,
      release-held_by np.lock n free,
      set-set,
    )

module _ {W : Type 0} (s : Services W) where
  pub fork_into_ok :
      (me i : ℕ) (k : Kernel W) (h : Hart) (p np : Proc) (w₁ : W)
      → IsNested h
      → k.hart ≡ push_off h
      → IsFree np.lock
      → IsFree k.wait_lock
      → get_elem? k.table me ≡ some p
      → get_elem? k.table i ≡ some (locked_by h.id np)
      → s.uvmcopy (address p.pagetable) (address np.pagetable) p.sz k.world ≡ (true, w₁)
      → fork_into s me i k
        ≡ ok (
          np.pid,
          record k {
            hart = settle h;
            table =
                set k.table i
                  (record ((inherit s p np w₁).0) { parent = some me; state = ProcState.runnable });
            world = (inherit s p np w₁).1;
          },
        )
  unfolding fork_into inherit
  fork_into_ok me i k h p np w₁ n eh free free_wait ep e ec = simp (
    deref_lem k.table me ep,
    deref_lem k.table i e,
    ec,
    publish_lem me i
        (record k {
          table = set k.table i (locked_by h.id ((inherit s p np w₁).0));
          world = (inherit s p np w₁).1;
        })
        h ((inherit s p np w₁).0) n eh free free_wait
        (get_elem?-set_self k.table i (locked_by h.id ((inherit s p np w₁).0))
          (lt-length_of_get_elem? k.table i e)),
    set-set,
  )

  pub fork_into_failed :
      (me i : ℕ) (k : Kernel W) (h : Hart) (p np : Proc) (w₁ : W)
      → IsNested h
      → k.hart ≡ push_off h
      → IsFree np.lock
      → get_elem? k.table me ≡ some p
      → get_elem? k.table i ≡ some (locked_by h.id np)
      → s.uvmcopy (address p.pagetable) (address np.pagetable) p.sz k.world ≡ (false, w₁)
      → fork_into s me i k
        ≡ ok (
          negsuc 0,
          record k {
            hart = settle h;
            table = set k.table i (cleared s np);
            world = free_pages s np w₁;
          },
        )
  unfolding fork_into freeproc free_pages
  fork_into_failed me i k h p np w₁ n eh free ep e ec = simp (
    deref_lem k.table me ep,
    deref_lem k.table i e,
    ec,
    unlock_proc_lem
        (record k {
          table = set k.table i (locked_by h.id (cleared s np));
          world = free_pages s np w₁;
        })
        i h (cleared s np) n eh free
        (get_elem?-set_self k.table i (locked_by h.id (cleared s np))
          (lt-length_of_get_elem? k.table i e)),
    set-set,
  )

module _ {W : Type 0} (s : Services W) where
  -- One reference more to each of the open files
  unfoldable pub dup_all : List (Option ℕ) → W → W
  dup_all [] w = w
  dup_all (none ∷ fs) w = dup_all fs w
  dup_all (some f ∷ fs) w = dup_all fs (s.filedup f w)

  dup_files-replicate :
      (theirs : List (Option ℕ)) (w : W)
      → dup_files s theirs (replicate (length theirs) none) w ≡ (theirs, dup_all theirs w)
  unfolding dup_files dup_all
  dup_files-replicate [] w = refl
  dup_files-replicate (none ∷ fs) w = rw (dup_files-replicate fs w) refl
  dup_files-replicate (some f ∷ fs) w = rw (dup_files-replicate fs (s.filedup f w)) refl

  pub inherit_lem :
      (p np : Proc) (w : W)
      → np.ofile ≡ replicate (length p.ofile) none
      → inherit s p np w ≡ (
        record np { sz = p.sz; ofile = p.ofile; cwd = p.cwd; name = p.name },
        s.idup (address p.cwd) (
            dup_all p.ofile (
              s.set_a0
                (address np.trapframe)
                0
                (s.copy_trapframe (address np.trapframe) (address p.trapframe) w))),
      )
  unfolding inherit
  inherit_lem p np w unopened =
      rw
        (
          unopened,
          dup_files-replicate p.ofile (
              s.set_a0 (address np.trapframe) 0
                (s.copy_trapframe (address np.trapframe) (address p.trapframe) w)),
        )
        refl
