-- ===== src/Kernel/Proc/Exit/Wait.antt =====
-- What `wait` of kernel/proc.c comes to when no lock is held and some child is a ZOMBIE, or the
-- caller has no child.
use system_call_enhancement.Base.{
  ℕ, suc, ◌-◌, ◌<◌, true, false, ◌&&◌, some, get_elem?, length, ◌≡◌, ◌≢◌, arith,
  lt-length_of_get_elem?,
}
use native.Mathlib.Nat.{zero-add}
use system_call_enhancement.Base.Int.{negsuc}
use system_call_enhancement.Kernel.Spinlock.{ok}
use system_call_enhancement.Kernel.Spinlock.Nesting.{
  IsNested, IsFree, settle, push_off-settle, release-held_by,
}
use system_call_enhancement.Kernel.Proc.{AllFree, Proc, Kernel, Services, unlock_wait}
use system_call_enhancement.Kernel.Proc.Locks.{AllFree-get_elem?, lock_wait_lem}
use system_call_enhancement.Kernel.Proc.Fork.Parts.{current_lem}
use system_call_enhancement.Kernel.Proc.Sleep.{Switch}
use system_call_enhancement.Kernel.Proc.Exit.{scan, wait_loop, wait}
use system_call_enhancement.Kernel.Proc.Exit.Effect.{
  is_child, is_zombie, waiting, scan_past, scan_zombie, answer, reap_lem,
}

module _ {W : Type 0} (s : Services W) (swtch : Switch W) (k : Kernel W) (fuel addr me : ℕ)
    (n : IsNested k.hart) (free : AllFree k.table) (free_wait : IsFree k.wait_lock)
    (runs : k.hart.proc ≡ some me) where
  wait-wait_loop :
      wait s swtch (suc fuel) addr k
      ≡ wait_loop s swtch (suc fuel) addr me (waiting s k k.hart me addr)
  unfolding wait
  wait-wait_loop = rw (
    current_lem k me n runs,
    lock_wait_lem (record k { hart = settle k.hart }) free_wait,
    push_off-settle k.hart,
  )

  -- `wait` with no lock held by process p, at index me, of whose children the one at index i, q, is
  -- the first that is a ZOMBIE: without a pass through `sleep` it frees that child and returns its
  -- pid; if an address is given and the exit status cannot be copied there, it returns -1 and the
  -- table is unchanged. Either way every lock is given back.
  pub wait_reaps :
      (i : ℕ) (p q : Proc)
      → get_elem? k.table me ≡ some p
      → get_elem? k.table i ≡ some q
      → me ≢ i
      → is_child me q ≡ true
      → is_zombie q ≡ true
      → ((j : ℕ) (r : Proc)
          → j < i
          → get_elem? k.table j ≡ some r
          → (is_child me r && is_zombie r) ≡ false)
      → wait s swtch (suc fuel) addr k ≡ ok (some (answer s k k.hart me addr i p q))
  unfolding wait_loop
  wait_reaps i p q mine e others child dead quiet =
      let range = lt-length_of_get_elem? k.table i e in
      let m = length k.table - suc i in
      let (b, r, _) =
        scan_past s k k.hart me addr (length k.table) i (suc m) 0 false (omega arith) free
          (omega arith) (λ j r lt. quiet j r (omega arith)) in
      let free_q = AllFree-get_elem? k.table i free e in
      rw (
        wait-wait_loop,
        r,
        zero-add i,
        scan_zombie s k k.hart me addr m i b q e free_q child dead,
        reap_lem s k k.hart me addr i p q n free_q free_wait e mine others,
      )

  -- `wait` with no lock held by a process without children returns -1 at once and changes nothing
  -- but `intena`.
  pub wait_childless :
      ((j : ℕ) (p : Proc) → get_elem? k.table j ≡ some p → is_child me p ≡ false)
      → wait s swtch (suc fuel) addr k ≡ ok (some (negsuc 0, record k { hart = settle k.hart }))
  unfolding wait_loop unlock_wait scan
  wait_childless none_mine =
      let (b, r, same) =
        scan_past s k k.hart me addr (length k.table) (length k.table) 0 0 false (omega arith) free
          (omega arith) (λ j p lt e. ground (arith, none_mine j p e)) in
      rw (wait-wait_loop, r, same none_mine, release-held_by k.wait_lock n free_wait)
