-- ===== src/Kernel/Spinlock.antt =====
-- kernel/spinlock.c: spin locks, and the nesting of interrupt-disabled sections on one CPU. The
-- fields of `struct cpu` (kernel/proc.h) that these functions read, and the CPU's interrupt-enable
-- bit, are `Hart`.
pub mod Nesting
pub mod Exclusion
mod Tests
use system_call_enhancement.Base.{
  ℕ, ◌+◌, ◌-◌, ◌==◌, ltb, if◌then◌else◌, Bool, true, false, not, ◌&&◌, Option, none, some,
}
use Prim.Native.String.{String}

-- What a call on a CPU comes to. `spin` is a loop that ends only if another CPU stores to memory.
pub data Outcome {ℓ} (A : Type ℓ) : Type ℓ where
  ok : A → Outcome A
  panic : Outcome A
  spin : Outcome A

infixl 5 ◌>>=◌
abbrev pub ◌>>=◌ {ℓ κ} : {A : Type ℓ} {B : Type κ} → Outcome A → (A → Outcome B) → Outcome B
ok a >>= f = f a
panic >>= f = panic
spin >>= f = spin

-- `struct spinlock`; `cpu` is the index of the CPU that holds the lock.
pub record Spinlock : Type 0 where
  pub locked : Bool
  pub name : String
  pub cpu : Option ℕ

-- One CPU: its index, `proc` (the index of the process it runs), `noff`, `intena`, and the
-- interrupt-enable bit that `intr_get`, `intr_on` and `intr_off` of kernel/riscv.h access.
pub record Hart : Type 0 where
  pub id : ℕ
  pub proc : Option ℕ
  pub noff : ℕ
  pub intena : Bool
  pub intr : Bool

abbrev pub same_cpu : Option ℕ → ℕ → Bool
same_cpu none c = false
same_cpu (some d) c = d == c

unfoldable pub initlock : String → Spinlock
initlock n = record { locked = false; name = n; cpu = none }

unfoldable pub holding : Hart → Spinlock → Bool
holding h lk = lk.locked && same_cpu lk.cpu h.id

-- `noff` and `intena` are read after `intr_off`.
unfoldable pub push_off : Hart → Hart
push_off h = record h {
  intr = false;
  intena = if h.noff == 0 then h.intr else h.intena;
  noff = h.noff + 1;
}

unfoldable pub pop_off : Hart → Outcome Hart
pop_off h =
    if h.intr
    then panic
    else if ltb h.noff 1
    then panic
    else ok (record h {
      noff = h.noff - 1;
      intr = if h.noff - 1 == 0 && h.intena then true else h.intr;
    })

-- The atomic swap succeeds at once if the lock is free; otherwise the `while` spins.
unfoldable pub acquire : Hart → Spinlock → Outcome (Hart × Spinlock)
unfolding push_off holding
acquire h lk =
    let h' = push_off h in
    if holding h' lk
    then panic
    else if lk.locked
    then spin
    else ok (h', record lk { locked = true; cpu = some h'.id })

unfoldable pub release : Hart → Spinlock → Outcome (Hart × Spinlock)
unfolding pop_off holding
release h lk =
    if not (holding h lk)
    then panic
    else do h' ← pop_off h; ok (h', record lk { cpu = none; locked = false })

-- `myproc` of kernel/proc.c.
unfoldable pub myproc : Hart → Outcome (Option ℕ × Hart)
unfolding push_off pop_off
myproc h = do h' ← pop_off (push_off h); ok (h.proc, h')
