-- ===== src/Kernel/Proc/Locks.antt =====
-- `acquire` and `release` of `p->lock` and `wait_lock` as kernel/proc.c calls them, on one CPU.
use system_call_enhancement.Base.{
  ℕ, zero, suc, List, [], ◌∷◌, get_elem?, set, some, ◌≡◌, subst, arith,
}
use system_call_enhancement.Kernel.Spinlock.{ok, Hart, push_off}
use system_call_enhancement.Kernel.Spinlock.Nesting.{
  IsNested, IsFree, settle, held_by, acquire_free, release-held_by,
}
use system_call_enhancement.Kernel.Proc.{
  AllFree, Proc, Kernel, deref_lem, lock_proc, unlock_proc, lock_wait,
}

-- The process with its lock held by CPU c.
abbrev pub locked_by : ℕ → Proc → Proc
locked_by c p = record p { lock = held_by c p.lock }

-- The lock of one process of a free table
pub AllFree-get_elem? :
    (ps : List Proc) (i : ℕ) {p : Proc} → AllFree ps → get_elem? ps i ≡ some p → IsFree p.lock
AllFree-get_elem? [] i free e = absurd (ground arith)
AllFree-get_elem? (p ∷ ps) zero {p = q} free e =
    let same : p ≡ q = cc in subst (λ (r : Proc). IsFree r.lock) same free.0
AllFree-get_elem? (p ∷ ps) (suc i) free e = AllFree-get_elem? ps i free.1 e

module _ {W : Type 0} (k : Kernel W) where
  pub lock_proc_lem :
      (i : ℕ) (p : Proc)
      → IsFree p.lock
      → get_elem? k.table i ≡ some p
      → lock_proc i k
        ≡ ok (record k { hart = push_off k.hart; table = set k.table i (locked_by k.hart.id p) })
  unfolding lock_proc push_off
  lock_proc_lem i p free e = simp (deref_lem k.table i e, acquire_free k.hart p.lock free.unlocked)

  pub unlock_proc_lem :
      (i : ℕ) (h : Hart) (p : Proc)
      → IsNested h
      → k.hart ≡ push_off h
      → IsFree p.lock
      → get_elem? k.table i ≡ some (locked_by h.id p)
      → unlock_proc i k ≡ ok (record k { hart = settle h; table = set k.table i p })
  unfolding unlock_proc
  unlock_proc_lem i h p n eh free e =
      simp (deref_lem k.table i e, eh, release-held_by p.lock n free)

  pub lock_wait_lem :
      IsFree k.wait_lock
      → lock_wait k
        ≡ ok (record k { hart = push_off k.hart; wait_lock = held_by k.hart.id k.wait_lock })
  unfolding lock_wait push_off
  lock_wait_lem free = simp (acquire_free k.hart k.wait_lock free.unlocked)
