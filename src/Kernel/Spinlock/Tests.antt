-- ===== src/Kernel/Spinlock/Tests.antt =====
-- The theorems about kernel/spinlock.c at concrete states.
use system_call_enhancement.Base.{ℕ, true, false, none, some, ◌≡◌, ◌≢◌, refl, arith}
use system_call_enhancement.Kernel.Spinlock.{
  Hart, Spinlock, ok, panic, spin, ◌>>=◌, acquire, release, initlock,
}
use system_call_enhancement.Kernel.Spinlock.Nesting.{IsNested, acquire-release}
use system_call_enhancement.Kernel.Spinlock.Exclusion.{
  System, outside, inside, failed, holds, update, Reach, here, next, enter, swap_free, set_cpu,
  swapping, won, acquire_exclusive,
}

-- CPU 0 outside every critical section, with interrupts on
abbrev cpu0 : Hart
cpu0 = record { id = 0; proc = some 1; noff = 0; intena = false; intr = true }

abbrev free_lock : Spinlock
free_lock = record { locked = false; name = "proc"; cpu = none }

cpu0-IsNested : IsNested cpu0
cpu0-IsNested = record { off = λ h. absurd (omega arith) }

acquire-release_example :
    (acquire cpu0 free_lock >>= λ (h, lk). release h lk)
    ≡ ok (record cpu0 { intena = true }, free_lock)
acquire-release_example = acquire-release free_lock cpu0-IsNested refl

-- An `acquire` of a lock that this CPU holds panics.
acquire_twice : (acquire cpu0 (initlock "a") >>= λ (h, lk). acquire h lk) ≡ panic
unfolding acquire initlock
acquire_twice = refl

acquire_other : acquire cpu0 (record free_lock { locked = true; cpu = some 3 }) ≡ spin
unfolding acquire
acquire_other = refl

abbrev start : System
start = record { lock = free_lock; place = λ c. outside }

abbrev entered : System
entered = record start { place = update start.place 0 swapping }

abbrev swapped : System
swapped = record entered {
  lock = record free_lock { locked = true };
  place = update entered.place 0 won;
}

abbrev taken : System
taken = record swapped {
  lock = record free_lock { locked = true; cpu = some 0 };
  place = update swapped.place 0 inside;
}

start-taken : Reach start taken
start-taken =
    next 0 (next 0 (next 0 here (enter start refl refl)) (swap_free entered refl refl))
      (set_cpu swapped refl)

acquire_exclusive_example :
    ((c d : ℕ) → taken.place c ≡ inside → taken.place d ≡ inside → c ≡ d)
    × ((c : ℕ)
        → (taken.place c ≡ inside → holds taken.lock c ≡ true)
          × (holds taken.lock c ≡ true → taken.place c ≡ inside))
    × ((c : ℕ) → taken.place c ≢ failed)
acquire_exclusive_example =
    acquire_exclusive (record { free = refl; nobody = refl; all_out = λ c. refl }) start-taken
