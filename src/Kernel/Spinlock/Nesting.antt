-- ===== src/Kernel/Spinlock/Nesting.antt =====
-- `push_off` and `pop_off` of kernel/spinlock.c are matched, and so are `acquire` and `release`.
use system_call_enhancement.Base.{
  ℕ, zero, suc, ◌<◌, ◌==◌, if◌then◌else◌, true, false, none, some, ◌≡◌, refl, arith,
}
use system_call_enhancement.Kernel.Spinlock.{
  Outcome, ok, panic, spin, ◌>>=◌, Spinlock, Hart, holding, push_off, pop_off, myproc, acquire,
  release,
}

-- Inside a section of `push_off` interrupts are off.
pub record IsNested (h : Hart) : Type 0 where
  pub off : 0 < h.noff → h.intr ≡ false

-- What a matched pair leaves behind: the outermost `push_off` has stored the interrupt-enable bit.
abbrev pub settle : Hart → Hart
settle h = record h { intena = if h.noff == 0 then h.intr else h.intena }

pub push_off-IsNested : (h : Hart) → IsNested (push_off h)
unfolding push_off
push_off-IsNested h = record { off = λ _. refl }

pub settle-IsNested : {h : Hart} → IsNested h → IsNested (settle h)
settle-IsNested n = record { off = n.off }

pub settle-settle : (h : Hart) → settle (settle h) ≡ settle h
settle-settle h = ground arith

-- n calls of `push_off`, and n of `pop_off`
abbrev pub pushes : ℕ → Hart → Hart
pushes zero h = h
pushes (suc n) h = pushes n (push_off h)

abbrev pub pops : ℕ → Hart → Outcome Hart
pops zero h = ok h
pops (suc n) h = pops n h >>= pop_off

pub push_off-pop_off : {h : Hart} → IsNested h → pop_off (push_off h) ≡ ok (settle h)
unfolding push_off pop_off
push_off-pop_off {h} n = ground (arith, n.off)

pub settle-push_off : (h : Hart) → settle (push_off h) ≡ push_off h
unfolding push_off
settle-push_off h = ground arith

-- Any number of `push_off` calls followed by as many `pop_off` calls succeeds, and changes nothing
-- but `intena`, which holds the interrupt-enable bit of before if no section was open; where
-- interrupts are off in an open section, as `push_off` leaves them. In particular interrupts are
-- on afterwards exactly if they were on before.
pub pushes-pops : (n : ℕ) {h : Hart} → IsNested h → pops (suc n) (pushes (suc n) h) ≡ ok (settle h)
pushes-pops zero {h} w = push_off-pop_off w
pushes-pops (suc n) {h} w =
    rw (pushes-pops n (push_off-IsNested h)) (rw (settle-push_off h) (push_off-pop_off w))

-- `acquire` takes a free lock, panics on a lock that this CPU holds, and spins on another's.
pub acquire_free :
    (h : Hart) (lk : Spinlock)
    → lk.locked ≡ false
    → acquire h lk ≡ ok (push_off h, record lk { locked = true; cpu = some h.id })
unfolding acquire
acquire_free h lk e = ground arith

pub acquire_held :
    (h : Hart) (lk : Spinlock)
    → (holding h lk ≡ true → acquire h lk ≡ panic)
      × (lk.locked ≡ true → holding h lk ≡ false → acquire h lk ≡ spin)
unfolding acquire
acquire_held h lk = (ground arith, ground arith)

-- On a CPU whose nesting is consistent, `acquire` of a lock that is not held and then `release` of
-- it succeed: the lock is free and names no CPU again, and the CPU's nesting depth and interrupt
-- flag are as a `push_off` and a `pop_off` leave them.
pub acquire-release :
    {h : Hart} (lk : Spinlock)
    → IsNested h
    → lk.locked ≡ false
    → (acquire h lk >>= λ (h', lk'). release h' lk')
      ≡ ok (settle h, record lk { locked = false; cpu = none })
unfolding acquire release
acquire-release {h} lk n e = ground (arith, n.off)

pub push_off-settle : (h : Hart) → push_off (settle h) ≡ push_off h
unfolding push_off
push_off-settle h = ground arith

-- The lock is free, and names no CPU.
pub record IsFree (lk : Spinlock) : Type 0 where
  pub unlocked : lk.locked ≡ false
  pub nobody : lk.cpu ≡ none

-- The lock as CPU c holds it.
abbrev pub held_by : ℕ → Spinlock → Spinlock
held_by c lk = record lk { locked = true; cpu = some c }

pub release-held_by :
    {h : Hart} (lk : Spinlock)
    → IsNested h
    → IsFree lk
    → release (push_off h) (held_by h.id lk) ≡ ok (settle h, lk)
unfolding push_off release
release-held_by {h} lk n free = ground (arith, n.off)

pub myproc_lem : {h : Hart} → IsNested h → myproc h ≡ ok (h.proc, settle h)
unfolding myproc
myproc_lem n = rw (push_off-pop_off n)
