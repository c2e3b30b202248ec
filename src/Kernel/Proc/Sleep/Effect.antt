-- ===== src/Kernel/Proc/Sleep/Effect.antt =====
-- The states in which `sleep`, `yield` and the scheduler of kernel/proc.c hand over the CPU.
use system_call_enhancement.Base.{
  ℕ, Bool, true, false, Option, none, some, set, get_elem?, ◌≡◌, refl, arith, set-set,
  set_of_get_elem?, ◌∙◌, subst, length, ◌<◌, get_elem?-set_self, lt-length_of_get_elem?,
}
use system_call_enhancement.Kernel.Spinlock.{
  Outcome, ok, ◌>>=◌, Spinlock, Hart, release, holding, push_off,
}
use system_call_enhancement.Kernel.Spinlock.Nesting.{
  IsNested, IsFree, settle, held_by, push_off-IsNested, push_off-settle, settle-push_off,
  release-held_by,
}
use system_call_enhancement.Kernel.Proc.{
  ProcState, Chan, Proc, Kernel, deref, deref_lem, deref-set, same_state, unlock_proc,
}
use system_call_enhancement.Kernel.Proc.Locks.{locked_by, lock_proc_lem, unlock_proc_lem}
use system_call_enhancement.Kernel.Proc.Fork.Parts.{current_lem}
use system_call_enhancement.Kernel.Proc.Sleep.{
  Switch, SleepLock, on_wait, on_ticks, put_lock, switch_away, sched, yield, wake_up, sleep_among,
  run_slot,
}

push_off-id : (h : Hart) → (push_off h).id ≡ h.id
unfolding push_off
push_off-id h = refl

push_off-proc : (h : Hart) → (push_off h).proc ≡ h.proc
unfolding push_off
push_off-proc h = refl

release_inner :
    (h : Hart) (lk : Spinlock)
    → IsFree lk
    → release (push_off (push_off h)) (held_by h.id lk) ≡ ok (push_off h, lk)
unfolding push_off
release_inner h lk free =
    subst (λ g. release (push_off (push_off h)) (held_by h.id lk) ≡ ok (g, lk)) (settle-push_off h)
      (release-held_by {h = push_off h} lk (push_off-IsNested h) free)

module _ {W : Type 0} (swtch : Switch W) where
  -- The checks of `sched` pass.
  record CanSwitch (k : Kernel W) (me : ℕ) (p : Proc) : Type 0 where
    nested : IsNested k.hart
    settled : settle k.hart ≡ k.hart
    mine : k.hart.proc ≡ some me
    at_me : get_elem? k.table me ≡ some p
    held : holding k.hart p.lock ≡ true
    depth : k.hart.noff ≡ 1
    off : k.hart.intr ≡ false
    calm : same_state p.state ProcState.running ≡ false

  sched_lem :
      {k : Kernel W} {me : ℕ} {p : Proc} → CanSwitch k me p → sched swtch k ≡ switch_away swtch me k
  unfolding sched
  sched_lem {k} {me} {p} c =
      rw (current_lem k me c.nested c.mine, c.settled, deref_lem k.table me c.at_me)
        (ground (arith, c.held, c.depth, c.off, c.calm))

  -- This CPU runs process me, with no lock held but that of process me, which is q.
  abbrev pub handed : Kernel W → Hart → ℕ → Proc → Kernel W
  handed k h me q = record k { hart = push_off h; table = set k.table me (locked_by h.id q) }

  handed-CanSwitch :
      (k : Kernel W) (h : Hart) (me : ℕ) (q : Proc)
      → h.noff ≡ 0
      → h.proc ≡ some me
      → me < length k.table
      → same_state q.state ProcState.running ≡ false
      → CanSwitch (handed k h me q) me (locked_by h.id q)
  unfolding push_off holding
  handed-CanSwitch k h me q depth mine range calm = record {
    nested = push_off-IsNested h;
    settled = settle-push_off h;
    mine = mine;
    at_me = get_elem?-set_self k.table me (locked_by h.id q) range;
    held = ground arith;
    depth = omega arith;
    off = refl;
    calm = calm;
  }

  -- On a CPU that holds no lock, `yield` by process me, whose lock is free, hands over the CPU with
  -- that process RUNNABLE and locked, nothing else held or changed, and unlocks it on return.
  pub yield_lem :
      (k : Kernel W) (me : ℕ) (p : Proc)
      → IsNested k.hart
      → k.hart.noff ≡ 0
      → k.hart.proc ≡ some me
      → get_elem? k.table me ≡ some p
      → IsFree p.lock
      → yield swtch k ≡ (
          switch_away swtch me (handed k k.hart me (record p { state = ProcState.runnable }))
          >>= unlock_proc me)
  unfolding yield
  yield_lem k me p n depth mine e free =
      let ready =
        handed-CanSwitch k k.hart me (record p { state = ProcState.runnable }) depth mine
          (lt-length_of_get_elem? k.table me e) refl in
      simp (
        current_lem k me n mine,
        lock_proc_lem (record k { hart = settle k.hart }) me p free e,
        push_off-settle,
        deref-set k.table me (locked_by k.hart.id p) (lt-length_of_get_elem? k.table me e),
        set-set,
        sched_lem ready,
      )

  -- The state that `sleep` has when other CPUs may take its lock again
  released_lem :
      (others : Kernel W → Outcome (Kernel W)) (chan : Option Chan) (l : SleepLock) (lk : Spinlock)
      (k k' : Kernel W) (h : Hart) (me : ℕ) (p : Proc)
      → IsNested h
      → h.proc ≡ some me
      → get_elem? k.table me ≡ some p
      → IsFree p.lock
      → IsFree lk
      → others (put_lock l lk (handed k h me p)) ≡ ok k'
      → sleep_among swtch others chan l
          (put_lock l (held_by h.id lk) (record k { hart = push_off h }))
        ≡ (deref k'.table me >>= λ q.
            sched swtch (record k' {
              table = set k'.table me (record q { chan = chan; state = ProcState.sleeping });
            })
            >>= wake_up swtch me l)
  unfolding sleep_among release push_off
  released_lem others chan on_wait lk k k' h me p n mine e free free_l eo =
      rw
        (
          current_lem (record k { hart = push_off h; wait_lock = held_by h.id lk }) me
              (push_off-IsNested h) (push_off-proc h ∙ mine),
          settle-push_off h,
          lock_proc_lem (record k { hart = push_off h; wait_lock = held_by h.id lk }) me p free e,
          push_off-id h,
          release_inner h lk free_l,
          eo,
        )
        refl
  released_lem others chan on_ticks lk k k' h me p n mine e free free_l eo =
      rw
        (
          current_lem (record k { hart = push_off h; tickslock = held_by h.id lk }) me
              (push_off-IsNested h) (push_off-proc h ∙ mine),
          settle-push_off h,
          lock_proc_lem (record k { hart = push_off h; tickslock = held_by h.id lk }) me p free e,
          push_off-id h,
          release_inner h lk free_l,
          eo,
        )
        refl

  -- `sleep` with lock l held, and no other, and interrupts nested as `push_off` leaves them. When
  -- it gives l up, so that other CPUs may take l and call `wakeup`, the caller's own lock is held
  -- already; whatever they do then that leaves a locked process and this CPU alone, `sleep` goes on
  -- to hand over the CPU with the caller SLEEPING on the channel and still locked, and nothing else
  -- changed.
  pub sleep_among_lem :
      (others : Kernel W → Outcome (Kernel W)) (chan : Option Chan) (l : SleepLock) (lk : Spinlock)
      (k k' : Kernel W) (h : Hart) (me : ℕ) (p : Proc)
      → IsNested h
      → h.noff ≡ 0
      → h.proc ≡ some me
      → get_elem? k.table me ≡ some p
      → IsFree p.lock
      → IsFree lk
      → others (put_lock l lk (handed k h me p)) ≡ ok (record k' { hart = push_off h })
      → get_elem? k'.table me ≡ some (locked_by h.id p)
      → sleep_among swtch others chan l
          (put_lock l (held_by h.id lk) (record k { hart = push_off h }))
        ≡ (switch_away swtch me
              (handed k' h me (record p { chan = chan; state = ProcState.sleeping }))
            >>= wake_up swtch me l)
  unfolding switch_away push_off wake_up
  sleep_among_lem others chan l lk k k' h me p n depth mine e free free_l eo e' =
      released_lem others chan l lk k (record k' { hart = push_off h }) h me p n mine e free free_l
        eo
      ∙ rw
          (
            deref_lem k'.table me e',
            sched_lem (
                handed-CanSwitch k' h me (record p { chan = chan; state = ProcState.sleeping })
                  depth mine (lt-length_of_get_elem? k'.table me e') refl),
          )
          refl

  -- One turn of the scheduler's loop on process i, whose lock is free. If it is RUNNABLE the
  -- scheduler switches to it with the process RUNNING, locked and current on this CPU, and after
  -- the switch back clears `proc` and unlocks it; otherwise the turn changes nothing but `intena`.
  pub run_slot_lem :
      (i : ℕ) (found : Bool) (k : Kernel W) (p : Proc)
      → IsNested k.hart
      → get_elem? k.table i ≡ some p
      → IsFree p.lock
      → (p.state ≡ ProcState.runnable
          → run_slot swtch i found k ≡ (
              swtch i (record k {
                hart = record (push_off k.hart) { proc = some i };
                table =
                    set k.table i (locked_by k.hart.id (record p { state = ProcState.running }));
              })
              >>= λ k₂.
                  unlock_proc i (record k₂ { hart = record k₂.hart { proc = none } }) >>= λ k₃.
                  ok (true, k₃)))
        × (same_state p.state ProcState.runnable ≡ false
            → run_slot swtch i found k ≡ ok (found, record k { hart = settle k.hart }))
  unfolding run_slot
  run_slot_lem i found k p n e free =
      let r = lt-length_of_get_elem? k.table i e in
      (
        λ q.
            rw (
              lock_proc_lem k i p free e,
              deref-set k.table i (locked_by k.hart.id p) r,
              q,
              set-set,
            ),
        λ q. rw (
          lock_proc_lem k i p free e,
          deref-set k.table i (locked_by k.hart.id p) r,
          q,
          unlock_proc_lem
              (record k { hart = push_off k.hart; table = set k.table i (locked_by k.hart.id p) }) i
              k.hart p n refl free (get_elem?-set_self k.table i (locked_by k.hart.id p) r),
          set-set,
          set_of_get_elem? k.table i e,
        ),
      )
