-- ===== src/Kernel/Sysproc.antt =====
-- kernel/sysproc.c: the system calls on processes. The integers that `argint` and `argaddr` fetch
-- are arguments; -1 as a `uint64` is the integer -1.
pub mod Calls
mod Tests
use system_call_enhancement.Base.{
  ℕ, zero, suc, ◌+◌, ◌-◌, ◌*◌, ◌/◌, ◌%◌, ◌^◌, ◌==◌, ltb, if◌then◌else◌, Bool, true, false, ◌||◌,
  Option, none, some, List, [], ◌∷◌,
}
use system_call_enhancement.Base.Int.{ℤ, pos, negsuc, ltb_ℤ, eqb_ℤ, pos_part}
use system_call_enhancement.Kernel.Spinlock.{Outcome, ok, panic, ◌>>=◌, acquire, release}
use system_call_enhancement.Kernel.Proc.{Chan, Proc, Kernel, Services, deref}
use system_call_enhancement.Kernel.Proc.Wakeup.{kill, killed}
use system_call_enhancement.Kernel.Proc.Fork.{current, growproc}
use system_call_enhancement.Kernel.Proc.Sleep.{Switch, on_ticks, sleep}

unfoldable pub sys_getpid : {W : Type 0} → Kernel W → Outcome (ℤ × Kernel W)
sys_getpid k = do (me, k₁) ← current k; p ← deref k₁.table me; ok (p.pid, k₁)

unfoldable pub sys_sbrk : {W : Type 0} → Services W → ℤ → Kernel W → Outcome (ℤ × Kernel W)
sys_sbrk s n k = do
  (me, k₁) ← current k
  p ← deref k₁.table me
  (r, k₂) ← growproc s n k₁
  ok (if ltb_ℤ r (pos 0) then negsuc 0 else pos p.sz, k₂)

-- `acquire(&tickslock)` and `release(&tickslock)`
unfoldable pub lock_ticks : {W : Type 0} → Kernel W → Outcome (Kernel W)
lock_ticks k = do (h, lk) ← acquire k.hart k.tickslock; ok (record k { hart = h; tickslock = lk })

unfoldable pub unlock_ticks : {W : Type 0} → Kernel W → Outcome (Kernel W)
unlock_ticks k = do (h, lk) ← release k.hart k.tickslock; ok (record k { hart = h; tickslock = lk })

-- The `while` of `sys_sleep` and what follows it, on fuel; `none` if that runs out. The difference
-- of two `uint`s wraps around.
unfoldable pub sleep_ticks :
    {W : Type 0} → Switch W → (fuel n ticks0 : ℕ) → Kernel W → Outcome (Option (ℤ × Kernel W))
sleep_ticks swtch zero n ticks0 k = ok none
sleep_ticks swtch (suc fuel) n ticks0 k =
    let over = unlock_ticks k >>= λ k₁. ok (some (pos 0, k₁)) in
    let again = (do
      (me, k₁) ← current k
      (dead, k₂) ← killed me k₁
      let stop = unlock_ticks k₂ >>= λ k₃. ok (some (negsuc 0, k₃))
      let next = do
        k₃ ← sleep swtch (some Chan.of_ticks) on_ticks k₂
        sleep_ticks swtch fuel n ticks0 k₃
      if dead then stop else next) in
    if ltb ((k.ticks + 2 ^ 32 - ticks0) % 2 ^ 32) n then again else over

unfoldable pub sys_sleep :
    {W : Type 0} → Switch W → (fuel : ℕ) → ℤ → Kernel W → Outcome (Option (ℤ × Kernel W))
sys_sleep swtch fuel n k = do k₁ ← lock_ticks k; sleep_ticks swtch fuel (pos_part n) k₁.ticks k₁

unfoldable pub sys_uptime : {W : Type 0} → Kernel W → Outcome (ℕ × Kernel W)
sys_uptime k = do k₁ ← lock_ticks k; k₂ ← unlock_ticks k₁; ok (k₁.ticks, k₂)

-- The loop of `sys_setpriority`: the value returned, 0 or -1, and the table.
unfoldable pub set_priority : (pid priority : ℤ) → List Proc → ℤ × List Proc
set_priority pid priority [] = (negsuc 0, [])
set_priority pid priority (p ∷ ps) =
    let (r, ps') = set_priority pid priority ps in
    if eqb_ℤ p.pid pid then (pos 0, record p { priority = priority } ∷ ps) else (r, p ∷ ps')

unfoldable pub sys_setpriority : {W : Type 0} → (pid priority : ℤ) → Kernel W → ℤ × Kernel W
sys_setpriority pid priority k =
    let (r, ps) = set_priority pid priority k.table in
    if ltb_ℤ pid (pos 0) || ltb_ℤ priority (pos 0)
    then (negsuc 0, k)
    else (r, record k { table = ps })

-- The loop of `sys_cpuutilization` from the sums given.
unfoldable pub add_times : (total idle : ℕ) → List Proc → ℕ × ℕ
add_times total idle [] = (total, idle)
add_times total idle (p ∷ ps) =
    add_times ((total + p.total_time) % 2 ^ 64) ((idle + p.idle_time) % 2 ^ 64) ps

unfoldable pub sys_cpuutilization : {W : Type 0} → Kernel W → ℕ
sys_cpuutilization k =
    let (total, idle) = add_times 0 0 k.table in
    if total == 0 then 0 else (total + 2 ^ 64 - idle) % 2 ^ 64 * 100 % 2 ^ 64 / total
