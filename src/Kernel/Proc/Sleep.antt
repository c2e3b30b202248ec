-- ===== src/Kernel/Proc/Sleep.antt =====
-- `sched`, `yield`, `sleep` and a round of `scheduler` of kernel/proc.c. `swtch` (kernel/swtch.S)
-- is an argument: from the state in which the process at an index gives up the CPU to the state in
-- which it goes on, maybe on another CPU.
pub mod Effect
mod Tests
use system_call_enhancement.Base.{
  ℕ, zero, suc, ◌==◌, if◌then◌else◌, Bool, true, false, not, ◌||◌, Option, none, some, set,
  get_elem?, length,
}
use system_call_enhancement.Kernel.Spinlock.{
  Outcome, ok, panic, ◌>>=◌, Spinlock, Hart, acquire, release, holding,
}
use system_call_enhancement.Kernel.Proc.{
  ProcState, Chan, Proc, Kernel, same_state, nproc, deref, lock_proc, unlock_proc,
}
use system_call_enhancement.Kernel.Proc.Fork.{current}

abbrev pub Switch : Type 0 → Type 0
Switch W = ℕ → Kernel W → Outcome (Kernel W)

-- The locks that proc.c and sysproc.c sleep with.
pub data SleepLock : Type 0 where
  on_wait on_ticks : SleepLock

abbrev pub the_lock : {W : Type 0} → SleepLock → Kernel W → Spinlock
the_lock on_wait k = k.wait_lock
the_lock on_ticks k = k.tickslock

abbrev pub put_lock : {W : Type 0} → SleepLock → Spinlock → Kernel W → Kernel W
put_lock on_wait lk k = record k { wait_lock = lk }
put_lock on_ticks lk k = record k { tickslock = lk }

module _ {W : Type 0} (swtch : Switch W) where
  -- The end of `sched`: `intena` belongs to the process, not to the CPU.
  unfoldable pub switch_away : ℕ → Kernel W → Outcome (Kernel W)
  switch_away me k = do
    k₁ ← swtch me k
    ok (record k₁ { hart = record k₁.hart { intena = k.hart.intena } })

  -- Any of the four checks that fails is a panic.
  unfoldable pub sched : Kernel W → Outcome (Kernel W)
  sched k = do
    (me, k₁) ← current k
    p ← deref k₁.table me
    let bad = not (holding k₁.hart p.lock) || not (k₁.hart.noff == 1)
    let worse = same_state p.state ProcState.running || k₁.hart.intr
    if bad || worse then panic else switch_away me k₁

  unfoldable pub yield : Kernel W → Outcome (Kernel W)
  yield k = do
    (me, k₁) ← current k
    k₂ ← lock_proc me k₁
    p ← deref k₂.table me
    k₃ ← sched (record k₂ { table = set k₂.table me (record p { state = ProcState.runnable }) })
    unlock_proc me k₃

  -- `sleep` behind its call of `sched`
  unfoldable pub wake_up : ℕ → SleepLock → Kernel W → Outcome (Kernel W)
  wake_up me l k = do
    p ← deref k.table me
    k₁ ← unlock_proc me (record k { table = set k.table me (record p { chan = none }) })
    (h, lk) ← acquire k₁.hart (the_lock l k₁)
    ok (put_lock l lk (record k₁ { hart = h }))

  -- `sleep`; `others` is what the other CPUs do between the release of the lock and the stores
  -- behind it.
  unfoldable pub sleep_among :
      (others : Kernel W → Outcome (Kernel W))
      → Option Chan
      → SleepLock
      → Kernel W
      → Outcome (Kernel W)
  sleep_among others chan l k = do
    (me, k₁) ← current k
    k₂ ← lock_proc me k₁
    (h, lk) ← release k₂.hart (the_lock l k₂)
    k₃ ← others (put_lock l lk (record k₂ { hart = h }))
    p ← deref k₃.table me
    let asleep = record p { chan = chan; state = ProcState.sleeping }
    k₄ ← sched (record k₃ { table = set k₃.table me asleep })
    wake_up me l k₄

  -- `sleep` when the other CPUs do nothing in between
  unfoldable pub sleep : Option Chan → SleepLock → Kernel W → Outcome (Kernel W)
  unfolding sleep_among
  sleep chan l k = sleep_among ok chan l k

  -- The body of the inner loop of `scheduler` for the process at index i. Here `swtch i` runs that
  -- process until it switches back. The flag is `found`.
  unfoldable pub run_slot : ℕ → Bool → Kernel W → Outcome (Bool × Kernel W)
  run_slot i found k = do
    k₁ ← lock_proc i k
    p ← deref k₁.table i
    let running = record k₁ {
      hart = record k₁.hart { proc = some i };
      table = set k₁.table i (record p { state = ProcState.running });
    }
    let run = do
      k₂ ← swtch i running
      k₃ ← unlock_proc i (record k₂ { hart = record k₂.hart { proc = none } })
      ok (true, k₃)
    let skip = do k₂ ← unlock_proc i k₁; ok (found, k₂)
    if same_state p.state ProcState.runnable then run else skip

  -- n turns of the inner loop from index i on
  unfoldable pub run_slots : (n i : ℕ) → Bool → Kernel W → Outcome (Bool × Kernel W)
  run_slots zero i found k = ok (found, k)
  run_slots (suc n) i found k = do (found₁, k₁) ← run_slot i found k; run_slots n (suc i) found₁ k₁

  -- The body of the `for (;;)` of `scheduler`.
  unfoldable pub scheduler_round : Kernel W → Outcome (Kernel W)
  scheduler_round k = do
    (found, k₁) ←
        run_slots (length k.table) 0 false (record k { hart = record k.hart { intr = true } })
    ok (if found then k₁ else record k₁ { hart = record k₁.hart { intr = true } })
