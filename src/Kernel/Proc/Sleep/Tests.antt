-- ===== src/Kernel/Proc/Sleep/Tests.antt =====
-- `yield`, `sleep` and the scheduler's loop on a table of three processes.
use system_call_enhancement.Base.{ℕ, ◌+◌, some, set, ◌≡◌, refl}
use system_call_enhancement.Kernel.Spinlock.{Outcome, ok, ◌>>=◌, push_off}
use system_call_enhancement.Kernel.Spinlock.Nesting.{held_by}
use system_call_enhancement.Kernel.Proc.{ProcState, Chan, Kernel, zero_proc}
use system_call_enhancement.Kernel.Proc.Locks.{locked_by}
use system_call_enhancement.Kernel.Proc.Tests.{cpu0, shell, kernel, cpu0-IsNested, unheld}
use system_call_enhancement.Kernel.Proc.Sleep.{
  Switch, on_ticks, put_lock, switch_away, sleep_among, wake_up,
}
use system_call_enhancement.Kernel.Proc.Sleep.Effect.{handed, sleep_among_lem}

-- The CPU comes back to the process at once.
abbrev back : Switch ℕ
back _ k = ok k

-- Another CPU takes `tickslock`, counts a tick and keeps the lock.
abbrev tick : Kernel ℕ → Outcome (Kernel ℕ)
tick k = ok (record k { ticks = k.ticks + 1; tickslock = held_by 1 k.tickslock })

abbrev ticked : Kernel ℕ
ticked = record kernel {
  ticks = 1;
  tickslock = held_by 1 zero_proc.lock;
  table = set kernel.table 0 (locked_by 0 shell);
}

sleep_among_lem_example :
    sleep_among back tick
      (some Chan.of_ticks)
      on_ticks
      (put_lock on_ticks (held_by 0 zero_proc.lock) (record kernel { hart = push_off cpu0 }))
    ≡ (switch_away back 0 (
          handed back ticked cpu0 0
            (record shell { chan = some Chan.of_ticks; state = ProcState.sleeping }))
        >>= wake_up back 0 on_ticks)
sleep_among_lem_example =
    sleep_among_lem back tick (some Chan.of_ticks) on_ticks zero_proc.lock kernel ticked cpu0 0
      shell cpu0-IsNested refl refl refl unheld unheld refl refl
