-- ===== src/Scheduling/MlfqImproved/Tests.antt =====
-- Three processes, and a queue of one pid.
use system_call_enhancement.Base.{
  ℕ, ◌+◌, ◌*◌, ◌/◌, ◌≤◌, ◌<◌, List, [], ◌∷◌, length, some, replicate, ◌≡◌, refl, arith,
}
use system_call_enhancement.Base.Int.{pos, negsuc, ◌-ℤ◌}
use system_call_enhancement.Scheduling.Mlfq.{Level, dequeue}
use system_call_enhancement.Scheduling.Mlfq.Queue.{contents}
use system_call_enhancement.Scheduling.MlfqImproved.{
  Process, done, unfinished, dynamic_time_quantum, bubble_sort, bubble_pass, enqueue, enqueue_pid,
  enqueue_ready, is_in_queue, in_cells, find_process, finish, run_process, turn, turns, run_queue,
  rr, sjf, no_queue, schedule, assign_processors, assign_from,
}
use system_call_enhancement.Scheduling.MlfqImproved.Quantum.{
  count_lt, count_le, dynamic_time_quantum_lem,
}
use system_call_enhancement.Scheduling.MlfqImproved.Absent.{
  Added, enqueue-Added, used, insert_last, insert_ready,
}
use system_call_enhancement.Scheduling.MlfqImproved.Phases.{emptied, schedule-rr}

abbrev process : (pid at bt : ℕ) → Process
process pid at bt = record {
  pid = pid;
  at = at;
  bt = bt;
  pr = negsuc 0;
  ct = negsuc 0;
  tat = negsuc 0;
  wt = negsuc 0;
  rt = negsuc 0;
  remain = bt;
}

abbrev three : List Process
three = process 1 0 3 ∷ process 2 0 1 ∷ process 3 1 2 ∷ []

dynamic_time_quantum-three : dynamic_time_quantum three 0 ≡ 3
unfolding dynamic_time_quantum bubble_sort bubble_pass
dynamic_time_quantum-three = refl

dynamic_time_quantum_lem_example :
    (count_lt (dynamic_time_quantum three 0) (unfinished three) ≤ 2 * length (unfinished three) / 3)
    × (2 * length (unfinished three) / 3
        < count_le (dynamic_time_quantum three 0) (unfinished three))
dynamic_time_quantum_lem_example = dynamic_time_quantum_lem three 0 (omega arith)

abbrev one_waits : Level
one_waits = record { cells = replicate 100 3; front = some 0; rear = some 0 }

enqueue-Added_example :
    Added
      (enqueue 77 5 three one_waits (some 1))
      (used one_waits + length three + 1)
      (insert_last (some 1) (insert_ready 5 three (contents one_waits)))
enqueue-Added_example =
    enqueue-Added 77 5 three one_waits (some 1)
      (record { cells_len = refl; range = (omega arith, omega arith) })
      ((λ e. omega (arith, e)), ((λ e. omega (arith, e)), ((λ e. omega (arith, e)), tt)))
      (λ e. absurd (ground (arith, e))) (omega arith)

abbrev brief : List Process
brief = process 1 0 3 ∷ []

schedule-rr_example : schedule 5 77 1 brief ≡ emptied (rr 5 77 0 (assign_processors 1 brief))
schedule-rr_example = schedule-rr 5 77 1 brief

-- It runs from time 0 to time 3.
brief_end :
    schedule 5 77 1 brief
    ≡ done (record {
      queue = no_queue;
      procs =
          record (process 1 0 3) {
            remain = 0;
            pr = pos 0;
            ct = pos 3;
            tat = pos 3;
            wt = pos 0;
            rt = pos 0;
          }
          ∷ [];
      current_time = 3;
    })
unfolding schedule sjf rr run_queue turns turn enqueue enqueue_ready enqueue_pid is_in_queue
    in_cells find_process run_process finish assign_processors assign_from ◌-ℤ◌ dequeue
brief_end = refl
