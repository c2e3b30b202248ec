-- ===== src/Kernel/Proc/Exit.antt =====
-- `reparent`, `exit` and `wait` of kernel/proc.c.
pub mod Effect
pub mod Wait
mod Tests
use system_call_enhancement.Base.{
  ℕ, zero, suc, ◌==◌, if◌then◌else◌, Bool, true, false, not, ◌||◌, Option, none, some, List, [],
  ◌∷◌, set, length,
}
use system_call_enhancement.Base.Int.{ℤ, pos, negsuc}
use system_call_enhancement.Kernel.Spinlock.{Outcome, ok, panic, ◌>>=◌}
use system_call_enhancement.Kernel.Proc.{
  ProcState, Chan, Proc, Kernel, Services, same_state, same_proc, deref, address, lock_proc,
  unlock_proc, lock_wait, unlock_wait,
}
use system_call_enhancement.Kernel.Proc.Wakeup.{wakeup, killed}
use system_call_enhancement.Kernel.Proc.Alloc.{freeproc}
use system_call_enhancement.Kernel.Proc.Fork.{current}
use system_call_enhancement.Kernel.Proc.Sleep.{Switch, SleepLock, on_wait, sched, sleep}

-- A `struct proc *` as a channel.
abbrev pub chan_of : Option ℕ → Option Chan
chan_of none = none
chan_of (some i) = some (Chan.of_proc i)

-- n turns of the loop of `reparent(p)` from index i on, for p at index me.
unfoldable pub reparent_from : {W : Type 0} → (n i me : ℕ) → Kernel W → Outcome (Kernel W)
reparent_from zero i me k = ok k
reparent_from (suc n) i me k = do
  pp ← deref k.table i
  let adopted = record k { table = set k.table i (record pp { parent = k.initproc }) }
  k₁ ← if same_proc pp.parent (some me) then wakeup (chan_of k.initproc) adopted else ok k
  reparent_from n (suc i) me k₁

unfoldable pub reparent : {W : Type 0} → ℕ → Kernel W → Outcome (Kernel W)
unfolding reparent_from
reparent me k = reparent_from (length k.table) 0 me k

-- What one scan of the table by `wait` comes to: it returns, or goes on with `havekids`.
pub data Scan (W : Type 0) : Type 0 where
  reaped : ℤ → Kernel W → Scan W
  no_zombie : (havekids : Bool) → Kernel W → Scan W

module _ {W : Type 0} (s : Services W) where
  -- The loop of `exit` over the open files.
  unfoldable pub close_files : List (Option ℕ) → W → List (Option ℕ) × W
  close_files [] w = ([], w)
  close_files (some f ∷ fs) w = let (gs, w₁) = close_files fs (s.fileclose f w) in (none ∷ gs, w₁)
  close_files (none ∷ fs) w = let (gs, w₁) = close_files fs w in (none ∷ gs, w₁)

  -- `exit` up to its `acquire(&wait_lock)`, for the caller p at index me.
  unfoldable pub close_all : ℕ → Proc → Kernel W → Kernel W
  close_all me p k =
      let (files, w) = close_files p.ofile k.world in
      record k {
        table = set k.table me (record p { ofile = files; cwd = none });
        world = s.end_op (s.iput (address p.cwd) (s.begin_op w));
      }

  -- `exit` between its `acquire(&wait_lock)` and its call of `sched`.
  unfoldable pub become_zombie : ℕ → ℤ → Kernel W → Outcome (Kernel W)
  become_zombie me status k = do
    k₁ ← lock_wait k
    k₂ ← reparent me k₁
    p ← deref k₂.table me
    k₃ ← wakeup (chan_of p.parent) k₂
    k₄ ← lock_proc me k₃
    q ← deref k₄.table me
    let zombie = record q { xstate = status; state = ProcState.zombie }
    unlock_wait (record k₄ { table = set k₄.table me zombie })

  -- `exit(status)`: a return of `sched` is a panic.
  unfoldable pub exit : Switch W → ℤ → Kernel W → Outcome (Kernel W)
  exit swtch status k = do
    (me, k₁) ← current k
    p ← deref k₁.table me
    let leave = do k₂ ← become_zombie me status (close_all me p k₁); k₃ ← sched swtch k₂; panic
    if same_proc (some me) k₁.initproc then panic else leave

  -- `wait` on a ZOMBIE child pp at index i, for the caller at index me.
  unfoldable pub reap : (addr me i : ℕ) → Proc → Kernel W → Outcome (Scan W)
  reap addr me i pp k = do
    p ← deref k.table me
    let (copied, w) = s.copyout_int (address p.pagetable) addr pp.xstate k.world
    let copied_out = record k { world = w }
    let failed = do k₁ ← unlock_proc i copied_out; k₂ ← unlock_wait k₁; ok (reaped (negsuc 0) k₂)
    let freed = λ (k₀ : Kernel W). freeproc s i k₀ >>= λ k₁.
        unlock_proc i k₁ >>= λ k₂. unlock_wait k₂ >>= λ k₃. ok (reaped pp.pid k₃)
    if addr == 0 then freed k else if copied then freed copied_out else failed

  -- n turns of the inner loop of `wait` from index i on
  unfoldable pub scan : (addr me n i : ℕ) → Bool → Kernel W → Outcome (Scan W)
  scan addr me zero i havekids k = ok (no_zombie havekids k)
  scan addr me (suc n) i havekids k = do
    pp ← deref k.table i
    let next = scan addr me n (suc i) havekids k
    let child = do
      k₁ ← lock_proc i k
      pp₁ ← deref k₁.table i
      let running = do k₂ ← unlock_proc i k₁; scan addr me n (suc i) true k₂
      if same_state pp₁.state ProcState.zombie then reap addr me i pp₁ k₁ else running
    if same_proc pp.parent (some me) then child else next

  -- The `for (;;)` of `wait` on fuel, `none` if that runs out.
  unfoldable pub wait_loop :
      Switch W → (fuel addr me : ℕ) → Kernel W → Outcome (Option (ℤ × Kernel W))
  wait_loop swtch zero addr me k = ok none
  wait_loop swtch (suc fuel) addr me k = do
    found ← scan addr me (length k.table) 0 false k
    elim found [
      | reaped r k₁ ↦ ok (some (r, k₁))
      | no_zombie havekids k₁ ↦ do
        (dead, k₂) ← if havekids then killed me k₁ else ok (true, k₁)
        let stop = do k₃ ← unlock_wait k₂; ok (some (negsuc 0, k₃))
        let again = do
          k₃ ← sleep swtch (some (Chan.of_proc me)) on_wait k₂
          wait_loop swtch fuel addr me k₃
        if dead then stop else again
    ]

  unfoldable pub wait : Switch W → (fuel addr : ℕ) → Kernel W → Outcome (Option (ℤ × Kernel W))
  wait swtch fuel addr k = do
    (me, k₁) ← current k
    k₂ ← lock_wait k₁
    wait_loop swtch fuel addr me k₂
