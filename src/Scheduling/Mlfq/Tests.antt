-- ===== src/Scheduling/Mlfq/Tests.antt =====
-- The queue operations and a round of the multilevel feedback queue on concrete states.
use system_call_enhancement.Base.{
  ℕ, ◌≡◌, refl, arith, ◌+◌, ◌≤◌, ◌<◌, [], ◌∷◌, none, some, replicate, set,
}
use system_call_enhancement.Base.Int.{negsuc}
use system_call_enhancement.Scheduling.Mlfq.{
  Process, Level, dequeue, enqueue, find_process, Sim, serve,
}
use system_call_enhancement.Scheduling.Mlfq.Serve.{work, completed, serve_lem}

-- A queue that holds the pids given, from the first cell on.
abbrev holding_two : ℕ → ℕ → Level
holding_two a b = record { cells = a ∷ b ∷ replicate 98 0; front = some 0; rear = some 1 }

abbrev job_of : ℕ → ℕ → Process
job_of pid bt = record {
  pid = pid;
  at = 2;
  bt = bt;
  pr = 0;
  ct = negsuc 0;
  tat = negsuc 0;
  wt = negsuc 0;
  rt = negsuc 0;
  remain = bt;
}

-- Two processes that wait at level 0.
abbrev two_waiting : Sim
two_waiting = record {
  queues = holding_two 7 8 ∷ empty_row ∷ empty_row ∷ [];
  procs = job_of 7 5 ∷ job_of 8 1 ∷ [];
  current_time = 0;
  overflows = 0;
}
  where
    empty_row : Level
    empty_row = record { cells = replicate 100 0; front = none; rear = none }

abbrev seven_left : Level
seven_left = record (holding_two 7 8) { front = some 1 }

-- Process 7 arrives at 2, runs for 2 of its 5, and goes to level 1.
serve_lem_example :
    (s' : Sim) × (serve 0 two_waiting ≡ some s')
    × (5 ≤ 2
        → s' ≡ record two_waiting {
          queues = set two_waiting.queues 0 seven_left;
          procs = completed 7 (job_of 7 5) ∷ job_of 8 1 ∷ [];
          current_time = 7;
        })
    × (2 < 5
        → s' ≡ record two_waiting {
          queues =
              seven_left
              ∷ record { cells = 7 ∷ replicate 99 0; front = some 0; rear = some 0 }
              ∷ record { cells = replicate 100 0; front = none; rear = none }
              ∷ [];
          procs = record (job_of 7 5) { remain = 3 } ∷ job_of 8 1 ∷ [];
          current_time = 4;
          overflows = 0;
        })
    × (s'.current_time + work s'.procs ≡ 2 + 6)
unfolding work dequeue find_process enqueue
serve_lem_example = serve_lem 0 0 7 seven_left (job_of 7 5) two_waiting (omega arith) refl refl refl
