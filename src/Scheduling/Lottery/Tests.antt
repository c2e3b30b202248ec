-- ===== src/Scheduling/Lottery/Tests.antt =====
-- A draw and a run of the lottery scheduler on two processes.
use system_call_enhancement.Base.{ℕ, ◌≡◌, refl, ◌*◌, List, [], ◌∷◌, some, map, arith, All}
use system_call_enhancement.Scheduling.Lottery.{
  Process, new_process, total_from, calculate_total_tickets, lottery_draw, main,
}
use system_call_enhancement.Scheduling.Lottery.Draw.{Wins, lottery_draw_lem}
use system_call_enhancement.Scheduling.Lottery.Rounds.{job}
use system_call_enhancement.Scheduling.Lottery.Ends.{IsPrinted, main_ends, IsFresh, total_burst}

abbrev two_jobs : List Process
two_jobs = new_process 1 10 0 2 ∷ new_process 2 5 1 3 ∷ []

lottery_draw_lem_example :
    ((j : ℕ) × (p : Process) × (lottery_draw two_jobs 15 1 27 ≡ some j) × Wins 1 13 two_jobs j p)
unfolding calculate_total_tickets total_from
lottery_draw_lem_example = (lottery_draw_lem two_jobs 1 27).1 (λ e. ground arith)

two_jobs-IsFresh : IsFresh 1 two_jobs
two_jobs-IsFresh = (
  ((1, 10, 0, 2), refl, omega arith, omega arith, omega arith),
  (((2, 5, 1, 3), refl, omega arith, omega arith, omega arith), tt),
)

main_ends_example :
    (out : List Process) × (main 8 (λ t. 7 * t) 2 two_jobs ≡ some out)
    × (map job out ≡ map job two_jobs)
    × All (IsPrinted 6) out
unfolding total_burst
main_ends_example =
    main_ends 8 (λ t. 7 * t) 2 1 two_jobs (omega arith) two_jobs-IsFresh (omega arith)
