-- ===== src/Kernel/Sleeplock/Tests.antt =====
-- A process takes a free sleep lock, and another one sleeps on it.
use system_call_enhancement.Base.{◌∷◌, [], true, refl}
use system_call_enhancement.Kernel.Sleeplock.{Sleeplock, initsleeplock, acquiresleep}
use system_call_enhancement.Kernel.Sleeplock.Waiting.{
  System, start, enter, wait, here, next, Reach, Exclusive, sleeplock-Exclusive,
}

abbrev held : Sleeplock
held = record { name = "inode"; locked = true; pid = 3; sleepers = [] }

abbrev contended : System
contended = record { lock = record held { sleepers = 4 ∷ [] }; holders = 3 ∷ [] }

reached : Reach (start "inode") contended
unfolding initsleeplock acquiresleep
reached =
    next (next here (enter (start "inode") held 3 refl))
      (wait (record { lock = held; holders = 3 ∷ [] }) (record held { sleepers = 4 ∷ [] }) 4 refl)

sleeplock-Exclusive_example : Exclusive contended
sleeplock-Exclusive_example = sleeplock-Exclusive "inode" contended reached
