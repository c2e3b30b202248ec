-- ===== src/Kernel/Sleeplock.antt =====
-- kernel/sleeplock.c. The spin lock `lk->lk` makes one step of each of its critical sections, and
-- `sleep` gives it back only when the process already counts as asleep on the lock.
pub mod Waiting
mod Tests
use system_call_enhancement.Base.{ℕ, ◌==◌, if◌then◌else◌, Bool, true, false, ◌&&◌, List, [], ◌∷◌}
use Prim.Native.String.{String}

-- `struct sleeplock`, less its spin lock, and the processes that sleep on it as a channel.
pub record Sleeplock : Type 0 where
  pub name : String
  pub locked : Bool
  pub pid : ℕ
  pub sleepers : List ℕ

unfoldable pub initsleeplock : String → Sleeplock
initsleeplock name = record { name = name; locked = false; pid = 0; sleepers = [] }

-- `acquiresleep` up to its `sleep` or its end: whether the process has the lock. A process that is
-- woken in `sleep` takes this step again.
unfoldable pub acquiresleep : (pid : ℕ) → Sleeplock → Bool × Sleeplock
acquiresleep pid lk =
    if lk.locked
    then (false, record lk { sleepers = pid ∷ lk.sleepers })
    else (true, record lk { locked = true; pid = pid })

-- `wakeup(lk)` wakes all who sleep on the lock.
unfoldable pub releasesleep : Sleeplock → Sleeplock
releasesleep lk = record lk { locked = false; pid = 0; sleepers = [] }

unfoldable pub holdingsleep : (pid : ℕ) → Sleeplock → Bool
holdingsleep pid lk = lk.locked && lk.pid == pid
