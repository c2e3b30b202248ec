-- ===== src/Kernel/Proc/Wakeup.antt =====
-- `wakeup`, `kill`, `setkilled` and `killed` of kernel/proc.c, each a loop over the table or a
-- critical section on one process.
pub mod Effect
use system_call_enhancement.Base.{
  ℕ, zero, suc, if◌then◌else◌, Bool, true, false, ◌&&◌, Option, none, some, List, [], ◌∷◌,
  get_elem?, set,
}
use system_call_enhancement.Base.Int.{ℤ, pos, negsuc, eqb_ℤ}
use system_call_enhancement.Kernel.Spinlock.{
  Outcome, ok, panic, ◌>>=◌, Hart, acquire, release, myproc,
}
use system_call_enhancement.Kernel.Proc.{
  ProcState, Chan, Proc, Kernel, same_state, same_chan, same_proc,
}

-- The body of the `if` in `wakeup`.
unfoldable pub woken : Option Chan → Proc → Proc
woken chan p =
    if same_state p.state ProcState.sleeping && same_chan p.chan chan
    then record p { state = ProcState.runnable }
    else p

-- A critical section of one process's lock that applies f to the process.
unfoldable pub under_lock : (Proc → Proc) → Hart → Proc → Outcome (Hart × Proc)
under_lock f h p = do
  (h₁, lk) ← acquire h p.lock
  let p₁ = f (record p { lock = lk })
  (h₂, lk₂) ← release h₁ p₁.lock
  ok (h₂, record p₁ { lock = lk₂ })

-- The loop of `wakeup` from index i on.
unfoldable pub wakeup_from : Option Chan → ℕ → Hart → List Proc → Outcome (Hart × List Proc)
unfolding under_lock woken
wakeup_from chan i h [] = ok (h, [])
wakeup_from chan i h (p ∷ ps) = do
  (me, h₁) ← myproc h
  (h₂, p₂) ← if same_proc (some i) me then ok (h₁, p) else under_lock (woken chan) h₁ p
  (h₃, ps₃) ← wakeup_from chan (suc i) h₂ ps
  ok (h₃, p₂ ∷ ps₃)

unfoldable pub wakeup : {W : Type 0} → Option Chan → Kernel W → Outcome (Kernel W)
unfolding wakeup_from
wakeup chan k = do
  (h, ps) ← wakeup_from chan 0 k.hart k.table
  ok (record k { hart = h; table = ps })

-- What `kill` does to its victim.
unfoldable pub victim : Proc → Proc
victim p = record p {
  killed = true;
  state = if same_state p.state ProcState.sleeping then ProcState.runnable else p.state;
}

-- The loop of `kill`: the value returned, 0 or -1, and the rest of the table.
unfoldable pub kill_from : ℤ → Hart → List Proc → Outcome (ℤ × Hart × List Proc)
unfolding victim
kill_from pid h [] = ok (negsuc 0, h, [])
kill_from pid h (p ∷ ps) = do
  (h₁, lk) ← acquire h p.lock
  let rest = do
    (h₂, lk₂) ← release h₁ lk
    (r, h₃, ps₃) ← kill_from pid h₂ ps
    ok (r, h₃, record p { lock = lk₂ } ∷ ps₃)
  let found = do (h₂, lk₂) ← release h₁ lk; ok (pos 0, h₂, record (victim p) { lock = lk₂ } ∷ ps)
  if eqb_ℤ p.pid pid then found else rest

unfoldable pub kill : {W : Type 0} → ℤ → Kernel W → Outcome (ℤ × Kernel W)
unfolding kill_from
kill pid k = do (r, h, ps) ← kill_from pid k.hart k.table; ok (r, record k { hart = h; table = ps })

unfoldable pub setkilled : {W : Type 0} → ℕ → Kernel W → Outcome (Kernel W)
unfolding under_lock
setkilled i k = elim (get_elem? k.table i) [
  | none ↦ panic
  | some p ↦ do
    (h, p₁) ← under_lock (λ q. record q { killed = true }) k.hart p
    ok (record k { hart = h; table = set k.table i p₁ })
]

unfoldable pub killed : {W : Type 0} → ℕ → Kernel W → Outcome (Bool × Kernel W)
unfolding under_lock
killed i k = elim (get_elem? k.table i) [
  | none ↦ panic
  | some p ↦ do
    (h, p₁) ← under_lock (λ q. q) k.hart p
    ok (p₁.killed, record k { hart = h; table = set k.table i p₁ })
]
