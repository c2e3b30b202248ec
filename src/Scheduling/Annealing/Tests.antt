-- ===== src/Scheduling/Annealing/Tests.antt =====
-- Two rounds of the annealing on three processes and two processors.
use system_call_enhancement.Base.{ℕ, true, false, List, [], ◌∷◌, All, arith}
use system_call_enhancement.Base.Int.{negsuc}
use system_call_enhancement.Scheduling.Annealing.{Process, Draw, simulated_annealing}
use system_call_enhancement.Scheduling.Annealing.Best.{IsDraw, Annealed, simulated_annealing_lem}

abbrev new_process : (pid at bt : ℕ) → Process
new_process pid at bt = record {
  pid = pid;
  at = at;
  bt = bt;
  pr = negsuc 0;
  ct = negsuc 0;
  tat = negsuc 0;
  wt = negsuc 0;
  rt = negsuc 0;
}

abbrev three : List Process
three = new_process 1 0 4 ∷ new_process 2 1 3 ∷ new_process 3 2 9 ∷ []

abbrev draws : List Draw
draws =
    record { process1 = 0; process2 = 1; accepted = false }
    ∷ record { process1 = 2; process2 = 1; accepted = true }
    ∷ []

draws-IsDraw : All (IsDraw 3) draws
draws-IsDraw = (
  record { first = omega arith; second = omega arith; apart = λ e. absurd (omega (arith, e)) },
  (
    record { first = omega arith; second = omega arith; apart = λ e. absurd (omega (arith, e)) },
    tt,
  ),
)

simulated_annealing_lem_example : Annealed 2 three (simulated_annealing 2 draws three)
simulated_annealing_lem_example =
    simulated_annealing_lem 2 draws three (omega arith) (omega arith) draws-IsDraw
