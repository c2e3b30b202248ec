-- ===== src/Scheduling/Mlfq/Serve.antt =====
-- One round of the inner loop of sched_algo_mlfq_existing.c: no processor time is lost.
use system_call_enhancement.Base.{
  ℕ, zero, suc, ◌+◌, ◌-◌, ◌≤◌, ◌<◌, leb, ltb, true, false, if◌then◌else◌, some, List, [], ◌∷◌,
  get_or, set, get_elem?, ◌≡◌, refl, arith, ap, ◌∙◌, max, Bool-cases, inl, inr,
}
use system_call_enhancement.Base.Int.{pos, ◌-ℤ◌}
use system_call_enhancement.Scheduling.Mlfq.{
  Process, Level, Sim, quantum, empty_level, dequeue, find_process, finish, start_of, run_process,
  serve, enqueue, enqueue_at,
}

-- The time that the processes still need.
unfoldable pub work : List Process → ℕ
work [] = 0
work (p ∷ ps) = p.remain + work ps

work-set :
    (ps : List Process) (j : ℕ) {p : Process} (q : Process)
    → get_elem? ps j ≡ some p
    → work (set ps j q) + p.remain ≡ work ps + q.remain
unfolding work
work-set [] j q e = absurd (ground arith)
work-set (p ∷ ps) zero q e = ground arith
work-set (p ∷ ps) (suc j) {p = r} q e = omega (arith, work-set ps j {p = r} q e)

-- When the process starts: now, or when it arrives
abbrev pub start_time : ℕ → Process → ℕ
start_time now p = max now p.at

-- A process that ran to its end, at the time given
abbrev pub completed : ℕ → Process → Process
completed t p = record p {
  remain = 0;
  ct = pos t;
  tat = pos t -ℤ pos p.at;
  wt = pos t -ℤ pos p.at -ℤ pos p.bt;
  rt = pos t -ℤ pos p.at -ℤ pos p.bt;
}

-- The level below, if there is one
abbrev pub next_level : ℕ → ℕ
next_level zero = 1
next_level _ = 2

-- The row of the level below, where the queue of level i is q
abbrev pub row_below : ℕ → Level → Sim → Level
row_below i q s = get_or (set s.queues i q) (next_level i) empty_level

start_of-start_time : (now : ℕ) (p : Process) → start_of now p ≡ start_time now p
start_of-start_time now p = ground arith

next_level_lem : (i : ℕ) → i < 3 → (if ltb i 2 then i + 1 else i) ≡ next_level i
next_level_lem zero h = refl
next_level_lem (suc zero) h = refl
next_level_lem (suc (suc i)) h = ground (arith, h)

run_process-completed :
    (i j pid : ℕ) (q : Level) (p : Process) (s : Sim)
    → p.remain ≤ quantum i
    → run_process i j pid q p s ≡ record s {
      queues = set s.queues i q;
      procs = set s.procs j (completed (start_time s.current_time p + p.remain) p);
      current_time = start_time s.current_time p + p.remain;
    }
unfolding run_process finish
run_process-completed i j pid q p s h =
    let e : leb p.remain (quantum i) ≡ true = ground (arith, h) in
    rw (e, start_of-start_time s.current_time p) refl

-- Behind the quantum, before the pid is given to a queue again
abbrev stopped : (i j : ℕ) → Level → Process → Sim → Sim
stopped i j q p s = record s {
  queues = set s.queues i q;
  procs = set s.procs j (record p { remain = p.remain - quantum i });
  current_time = start_time s.current_time p + quantum i;
}

run_process-enqueue_at :
    (i j pid : ℕ) (q : Level) (p : Process) (s : Sim)
    → quantum i < p.remain
    → run_process i j pid q p s ≡ enqueue_at (if ltb i 2 then i + 1 else i) pid (stopped i j q p s)
unfolding run_process
run_process-enqueue_at i j pid q p s h =
    let e : leb p.remain (quantum i) ≡ false = ground (arith, h) in
    rw (e, start_of-start_time s.current_time p) refl

run_process-preempted :
    (i j pid : ℕ) (q : Level) (p : Process) (s : Sim)
    → i < 3
    → quantum i < p.remain
    → run_process i j pid q p s ≡ record s {
      queues = set (set s.queues i q) (next_level i) (enqueue (row_below i q s) pid).1;
      procs = set s.procs j (record p { remain = p.remain - quantum i });
      current_time = start_time s.current_time p + quantum i;
      overflows = if (enqueue (row_below i q s) pid).0 then s.overflows + 1 else s.overflows;
    }
unfolding enqueue_at
run_process-preempted i j pid q p s l h =
    run_process-enqueue_at i j pid q p s h
    ∙ ap (λ n. enqueue_at n pid (stopped i j q p s)) (next_level_lem i l)

-- A round of the inner loop on one of the three levels, whose queue gives a pid that `find_process`
-- finds, at process j, does not fail. The process starts now, or when it arrives if that is later.
-- If a quantum of the level is enough, it runs to its end: its completion is the new time, with the
-- turnaround, waiting and response times that follow, and no other queue changes. If not, it runs
-- for the quantum, and its pid is given to `enqueue` for the level below, or for the lowest again,
-- where a full row counts an overflow. No other process changes, nor any other field of this one;
-- and the processes together need as much less as the clock moves on from the start.
pub serve_lem :
    (i j pid : ℕ) (q : Level) (p : Process) (s : Sim)
    → i < 3
    → dequeue (get_or s.queues i empty_level) ≡ (some pid, q)
    → find_process s.procs pid ≡ some j
    → get_elem? s.procs j ≡ some p
    → (s' : Sim) × (serve i s ≡ some s')
      × (p.remain ≤ quantum i
          → s' ≡ record s {
            queues = set s.queues i q;
            procs = set s.procs j (completed (start_time s.current_time p + p.remain) p);
            current_time = start_time s.current_time p + p.remain;
          })
      × (quantum i < p.remain
          → s' ≡ record s {
            queues = set (set s.queues i q) (next_level i) (enqueue (row_below i q s) pid).1;
            procs = set s.procs j (record p { remain = p.remain - quantum i });
            current_time = start_time s.current_time p + quantum i;
            overflows = if (enqueue (row_below i q s) pid).0 then s.overflows + 1 else s.overflows;
          })
      × (s'.current_time + work s'.procs ≡ start_time s.current_time p + work s.procs)
unfolding serve
serve_lem i j pid q p s l ed ef eg = (
  run_process i j pid q p s,
  ground arith,
  run_process-completed i j pid q p s,
  run_process-preempted i j pid q p s l,
  elim (Bool-cases (leb p.remain (quantum i))) [
    | inl e ↦ rw (run_process-completed i j pid q p s (ground (arith, e))) (
        omega (arith, work-set s.procs j (completed (start_time s.current_time p + p.remain) p) eg))
    | inr e ↦
        let more : quantum i < p.remain = ground (arith, e) in
        rw (run_process-preempted i j pid q p s l more)
          (omega (arith, more, work-set s.procs j (record p { remain = p.remain - quantum i }) eg))
  ],
)
