-- ===== src/Kernel/Sysproc/Tests.antt =====
-- `sys_setpriority` on a table of two processes.
use system_call_enhancement.Base.{ℕ, none, some, [], ◌∷◌, ◌≡◌, refl, true}
use system_call_enhancement.Base.Int.{ℤ, pos}
use system_call_enhancement.Kernel.Proc.{Proc, Kernel, zero_proc}
use system_call_enhancement.Kernel.Sysproc.{set_priority, sys_setpriority}
use system_call_enhancement.Kernel.Sysproc.Calls.{idle}

abbrev timed : ℤ → ℕ → ℕ → Proc
timed pid total idle = record zero_proc { pid = pid; total_time = total; idle_time = idle }

abbrev kernel : Kernel ℕ
kernel = record {
  hart = record { id = 0; proc = none; noff = 0; intena = true; intr = true };
  table = timed (pos 1) 60 20 ∷ timed (pos 2) 60 10 ∷ [];
  nextpid = pos 3;
  initproc = some 0;
  pid_lock = zero_proc.lock;
  wait_lock = zero_proc.lock;
  tickslock = zero_proc.lock;
  ticks = 0;
  world = 0;
}

second_gets_it : (sys_setpriority (pos 2) (pos 7) kernel).0 ≡ pos 0
unfolding sys_setpriority set_priority
second_gets_it = refl
