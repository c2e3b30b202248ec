-- ===== src/Scheduling/MlfqImproved/Phases.antt =====
-- The two phases of `main` of schedulling_algorithms/sched_algo_mlfqs_improved.c.
use system_call_enhancement.Base.{
  ℕ, zero, suc, leb, ltb, true, false, ◌&&◌, none, some, List, [], ◌∷◌, ◌≡◌, ◌≢◌, refl, arith, ap,
  sym, ◌∙◌, Bool-cases, Option-cases, inl, inr,
}
use system_call_enhancement.Scheduling.Mlfq.{Level}
use system_call_enhancement.Scheduling.MlfqImproved.{
  Process, Sim, Result, done, fault, out_of_fuel, enqueue_ready, enqueue, all_processes_completed,
  turn, turns, no_queue, run_queue, rr, sjf, dynamic_time_quantum, schedule, assign_processors,
}

-- Nobody is ready among finished processes.
enqueue_ready_completed :
    (stray now : ℕ) (ps : List Process) (q : Level)
    → all_processes_completed ps ≡ true
    → enqueue_ready stray now ps q ≡ some q
unfolding enqueue_ready
enqueue_ready_completed stray now [] q h = refl
enqueue_ready_completed stray now (p ∷ ps) q h =
    let idle : ltb 0 p.remain ≡ false = ground (arith, h) in
    let rest : all_processes_completed ps ≡ true = ground (arith, h) in
    let skip : (leb p.at now && ltb 0 p.remain) ≡ false = ground (arith, idle) in
    rw (enqueue_ready, skip) (enqueue_ready_completed stray now ps q rest)

run_queue_completed :
    (fuel stray time_quantum now : ℕ) (head : List Process)
    → all_processes_completed head ≡ true
    → run_queue (suc fuel) stray time_quantum now head
      ≡ done (record { queue = no_queue; procs = head; current_time = now })
unfolding run_queue enqueue turns
run_queue_completed fuel stray time_quantum now head h =
    rw (run_queue, enqueue, turns, enqueue_ready_completed stray now head no_queue h, h) refl

-- A loop that ends has finished every process.
turns_completed :
    (fuel stray time_quantum : ℕ) (s t : Sim)
    → turns fuel stray time_quantum s ≡ done t
    → all_processes_completed t.procs ≡ true
unfolding turns
turns_completed zero stray time_quantum s t e = absurd (ground (arith, e))
turns_completed (suc fuel) stray time_quantum s t e =
    elim (Bool-cases (all_processes_completed s.procs)) [
      | inl h ↦
          let e₁ : done s ≡ done t = rw h at e in
          let same : s ≡ t = cc in ap (λ (x : Sim). all_processes_completed x.procs) (sym same) ∙ h
      | inr h ↦ elim (Option-cases (turn stray time_quantum s)) [
        | inl f ↦ let e₁ : fault ≡ done t = rw (h, f) at e in absurd cc
        | inr (u, f) ↦
            let rest = turns_completed fuel stray time_quantum u t in
            let e₁ : turns fuel stray time_quantum u ≡ done t = rw (h, f) at e in rest e₁
      ]
    ]

run_queue_ends :
    (fuel stray time_quantum now : ℕ) (head : List Process) (t : Sim)
    → run_queue fuel stray time_quantum now head ≡ done t
    → all_processes_completed t.procs ≡ true
unfolding run_queue
run_queue_ends fuel stray time_quantum now head t e =
    elim (Option-cases (enqueue stray now head no_queue none)) [
      | inl f ↦ let e₁ : fault ≡ done t = rw (run_queue, f) at e in absurd cc
      | inr (q, f) ↦
          let first : Sim = record { queue = q; procs = head; current_time = now } in
          let e₁ : turns fuel stray time_quantum first ≡ done t = rw (run_queue, f) at e in
          turns_completed fuel stray time_quantum first t e₁
    ]

run_queue_zero :
    (stray time_quantum now : ℕ) (head : List Process) (t : Sim)
    → run_queue 0 stray time_quantum now head ≢ done t
unfolding run_queue turns
run_queue_zero stray time_quantum now head t e =
    elim (Option-cases (enqueue stray now head no_queue none)) [
      | inl f ↦ let e₁ : fault ≡ done t = rw (run_queue, f) at e in absurd cc
      | inr (q, f) ↦ let e₁ : out_of_fuel ≡ done t = rw (run_queue, f) at e in absurd cc
    ]

-- The same end, with an empty queue.
abbrev pub emptied : Result → Result
emptied (done t) = done (record t { queue = no_queue })
emptied fault = fault
emptied out_of_fuel = out_of_fuel

sjf_after :
    (fuel stray : ℕ) (head : List Process) (r : Result)
    → rr fuel stray 0 head ≡ r
    → (elim r [
      | done s ↦ sjf fuel stray 0 s.current_time s.procs
      | fault ↦ fault
      | out_of_fuel ↦ out_of_fuel
    ])
      ≡ emptied r
unfolding rr sjf run_queue turns
sjf_after fuel stray head fault e = refl
sjf_after fuel stray head out_of_fuel e = refl
sjf_after zero stray head (done t) e = absurd (run_queue_zero stray 2 0 head t e)
sjf_after (suc fuel) stray head (done t) e =
    run_queue_completed fuel stray (dynamic_time_quantum t.procs 0) t.current_time t.procs
      (run_queue_ends (suc fuel) stray 2 0 head t e)

-- `main` does what its round robin does: when `rr` ends, `sjf` behind it has nothing left to do,
-- whatever quantum it computes, and ends at once with the processes and the time that `rr` left;
-- `main` faults or runs on exactly when `rr` does.
pub schedule-rr :
    (fuel stray processors : ℕ) (head : List Process)
    → schedule fuel stray processors head
      ≡ emptied (rr fuel stray 0 (assign_processors processors head))
unfolding schedule
schedule-rr fuel stray processors head =
    sjf_after fuel stray (assign_processors processors head)
      (rr fuel stray 0 (assign_processors processors head)) refl
