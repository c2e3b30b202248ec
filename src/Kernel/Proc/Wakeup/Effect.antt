-- ===== src/Kernel/Proc/Wakeup/Effect.antt =====
-- What `wakeup` and `kill` of kernel/proc.c do to the table when no lock of it is held.
use system_call_enhancement.Base.{
  ℕ, zero, suc, ◌+◌, ◌||◌, ◌&&◌, if◌then◌else◌, Bool, true, false, Option, some, List, [], ◌∷◌,
  get_elem?, ◌≡◌, refl, ◌≢◌, arith, Bool-cases, inl, inr,
}
use system_call_enhancement.Base.Int.{ℤ, pos, negsuc, eqb_ℤ}
use system_call_enhancement.Kernel.Spinlock.{ok, ◌>>=◌, Hart, Spinlock, acquire, release}
use system_call_enhancement.Kernel.Spinlock.Nesting.{
  myproc_lem, IsNested, IsFree, settle, settle-IsNested, settle-settle,
}
use system_call_enhancement.Kernel.Proc.{
  AllFree, Chan, Proc, ProcState, Kernel, same_proc, same_state, same_chan,
}
use system_call_enhancement.Kernel.Proc.Wakeup.{
  woken, under_lock, wakeup_from, wakeup, victim, kill_from, kill,
}

abbrev pub KeepsLock : (Proc → Proc) → Type 0
KeepsLock f = (p : Proc) (lk : Spinlock) → f (record p { lock = lk }) ≡ record (f p) { lock = lk }

pub under_lock_lem :
    {h : Hart} (f : Proc → Proc) (p : Proc)
    → IsNested h
    → IsFree p.lock
    → KeepsLock f
    → under_lock f h p ≡ ok (settle h, f p)
unfolding under_lock acquire release
under_lock_lem {h} f p n free keep =
    ground (arith, n.off, keep p p.lock, keep p (record p.lock { locked = true; cpu = some h.id }))

woken-KeepsLock : (chan : Option Chan) → KeepsLock (woken chan)
unfolding woken
woken-KeepsLock chan p lk = ground arith

-- The table after `wakeup`: each process but the caller, `me`, is woken.
unfoldable pub wake_all : Option Chan → Option ℕ → ℕ → List Proc → List Proc
wake_all chan me i [] = []
wake_all chan me i (p ∷ ps) =
    (if same_proc (some i) me
      then p
      else if same_state p.state ProcState.sleeping && same_chan p.chan chan
      then record p { state = ProcState.runnable }
      else p)
    ∷ wake_all chan me (suc i) ps

-- The first process, with its critical section shut.
wakeup_from-cons :
    (chan : Option Chan) (i : ℕ) {h : Hart} (p : Proc) (ps : List Proc)
    → IsNested h
    → IsFree p.lock
    → wakeup_from chan i h (p ∷ ps) ≡ (
        wakeup_from chan (suc i) (settle h) ps >>= λ (h', ps').
        ok (h', (if same_proc (some i) h.proc then p else woken chan p) ∷ ps'))
unfolding wakeup_from
wakeup_from-cons chan i {h} p ps n free = elim (Bool-cases (same_proc (some i) h.proc)) [
  | inl e ↦ rw (myproc_lem n, e)
  | inr e ↦ rw (
    myproc_lem n,
    e,
    under_lock_lem (woken chan) p (settle-IsNested n) free (woken-KeepsLock chan),
    settle-settle,
  )
]

wakeup_from_lem :
    (chan : Option Chan) (i : ℕ) {h : Hart} (p : Proc) (ps : List Proc)
    → IsNested h
    → AllFree (p ∷ ps)
    → wakeup_from chan i h (p ∷ ps) ≡ ok (settle h, wake_all chan h.proc i (p ∷ ps))
unfolding wakeup_from wake_all woken
wakeup_from_lem chan i {h} p [] n free = rw (wakeup_from-cons chan i p [] n free.0)
wakeup_from_lem chan i {h} p (q ∷ ps) n free = rw (
  wakeup_from-cons chan i p (q ∷ ps) n free.0,
  wakeup_from_lem chan (suc i) q ps (settle-IsNested n) free.1,
  settle-settle,
)

wakeup_from_table :
    (chan : Option Chan) {h : Hart} (ps : List Proc)
    → IsNested h
    → AllFree ps
    → ps ≢ []
    → wakeup_from chan 0 h ps ≡ ok (settle h, wake_all chan h.proc 0 ps)
wakeup_from_table chan [] n free some_proc = absurd (some_proc refl)
wakeup_from_table chan (p ∷ ps) n free some_proc = wakeup_from_lem chan 0 p ps n free

-- With no lock of the table held, `wakeup` makes every SLEEPING process whose `chan` is the given
-- one RUNNABLE, except the caller, changes no other field and no other process, and gives every
-- lock back; the CPU is as before but for `intena`.
pub wakeup_lem :
    {W : Type 0} (chan : Option Chan) (k : Kernel W)
    → IsNested k.hart
    → AllFree k.table
    → k.table ≢ []
    → wakeup chan k
      ≡ ok (record k { hart = settle k.hart; table = wake_all chan k.hart.proc 0 k.table })
unfolding wakeup
wakeup_lem chan k n free some_proc = rw (wakeup_from_table chan k.table n free some_proc)

-- Which processes `wake_all` changes, and how.
pub wake_all-get_elem? :
    (chan : Option Chan) (me : Option ℕ) (i j : ℕ) (ps : List Proc) {p : Proc}
    → get_elem? ps j ≡ some p
    → get_elem? (wake_all chan me i ps) j
      ≡ some (if same_proc (some (i + j)) me then p else woken chan p)
unfolding wake_all woken
wake_all-get_elem? chan me i j [] e = absurd (ground arith)
wake_all-get_elem? chan me i zero (p ∷ ps) e = ground arith
wake_all-get_elem? chan me i (suc j) (p ∷ ps) e =
    let shift : i + suc j ≡ suc i + j = omega arith in
    rw shift (wake_all-get_elem? chan me (suc i) j ps e)

kill_from-cons :
    (pid : ℤ) {h : Hart} (p : Proc) (ps : List Proc)
    → IsNested h
    → IsFree p.lock
    → kill_from pid h (p ∷ ps) ≡ (
        if eqb_ℤ p.pid pid
        then ok (pos 0, settle h, victim p ∷ ps)
        else (kill_from pid (settle h) ps >>= λ (r, h', ps'). ok (r, h', p ∷ ps')))
unfolding kill_from acquire release victim
kill_from-cons pid {h} p ps n free = ground (arith, n.off)

-- The first process with the given pid is the victim, if there is one.
unfoldable pub kill_first : ℤ → List Proc → List Proc
kill_first pid [] = []
kill_first pid (p ∷ ps) = if eqb_ℤ p.pid pid then victim p ∷ ps else p ∷ kill_first pid ps

unfoldable pub has_pid : ℤ → List Proc → Bool
has_pid pid [] = false
has_pid pid (p ∷ ps) = eqb_ℤ p.pid pid || has_pid pid ps

kill_from_lem :
    (pid : ℤ) {h : Hart} (p : Proc) (ps : List Proc)
    → IsNested h
    → AllFree (p ∷ ps)
    → kill_from pid h (p ∷ ps)
      ≡ ok (if has_pid pid (p ∷ ps) then pos 0 else negsuc 0, settle h, kill_first pid (p ∷ ps))
unfolding kill_first has_pid kill_from
kill_from_lem pid {h} p [] n free = rw (kill_from-cons pid p [] n free.0, kill_from) (ground arith)
kill_from_lem pid {h} p (q ∷ ps) n free =
    rw
      (
        kill_from-cons pid p (q ∷ ps) n free.0,
        kill_from_lem pid {h = settle h} q ps (settle-IsNested n) free.1,
        settle-settle h,
      )
      (ground arith)

kill_from_table :
    (pid : ℤ) {h : Hart} (ps : List Proc)
    → IsNested h
    → AllFree ps
    → ps ≢ []
    → kill_from pid h ps
      ≡ ok (if has_pid pid ps then pos 0 else negsuc 0, settle h, kill_first pid ps)
kill_from_table pid [] n free some_proc = absurd (some_proc refl)
kill_from_table pid (p ∷ ps) n free some_proc = kill_from_lem pid p ps n free

-- With no lock of the table held, `kill` returns 0 if some process has the pid and -1 if none has;
-- the first such process, and it alone, is marked killed and is woken if it sleeps, and every lock
-- is given back.
pub kill_lem :
    {W : Type 0} (pid : ℤ) (k : Kernel W)
    → IsNested k.hart
    → AllFree k.table
    → k.table ≢ []
    → kill pid k
      ≡ ok (
        if has_pid pid k.table then pos 0 else negsuc 0,
        record k { hart = settle k.hart; table = kill_first pid k.table },
      )
unfolding kill
kill_lem pid k n free some_proc = rw (kill_from_table pid k.table n free some_proc)
