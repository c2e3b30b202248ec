-- ===== src/Scheduling/Annealing.antt =====
-- schedulling_algorithms/sched_algo_sa.c: simulated annealing over assignments of processes to
-- processors. `rand()`, `exp` and the comparison of `double`s enter as what they decide in a round.
pub mod Assignments
pub mod Best
mod Tests
use system_call_enhancement.Base.{
  ℕ, zero, suc, ◌+◌, ◌-◌, ◌%◌, ◌==◌, ltb, if◌then◌else◌, Bool, true, false, ◌||◌, Option, none,
  some, List, [], ◌∷◌, get_or, set, replicate, length,
}
use system_call_enhancement.Base.Int.{ℤ, pos, negsuc, ◌-ℤ◌}

pub record Process : Type 0 where
  pub pid : ℕ
  pub at : ℕ
  pub bt : ℕ
  pub pr : ℤ
  pub ct : ℤ
  pub tat : ℤ
  pub wt : ℤ
  pub rt : ℤ

-- `start_time[i]`
abbrev pub start_of : (load arrival_time : ℕ) → ℕ
start_of load arrival_time = if ltb arrival_time load then load else arrival_time

-- The fields that the loop of `calculate_metrics` stores in a process.
unfoldable pub place : (processor load : ℕ) → Process → Process
place processor load p =
    let start = start_of load p.at in
    let ct = pos (start + p.bt) in
    let tat = ct -ℤ pos p.at in
    record p {
      pr = pos processor;
      ct = ct;
      tat = tat;
      wt = tat -ℤ pos p.bt;
      rt = pos start -ℤ pos p.at;
    }

-- The loop of `calculate_metrics` over the processes.
unfoldable pub place_all : List ℕ → List Process → (assignments : List ℕ) → List ℕ × List Process
place_all load [] cs = (load, [])
place_all load (p ∷ ps) [] = (load, p ∷ ps)
place_all load (p ∷ ps) (a ∷ cs) =
    let l = get_or load a 0 in
    let (load', ps') = place_all (set load a (start_of l p.at + p.bt)) ps cs in
    (load', place a l p ∷ ps')

-- The maximum, from `interval` on.
unfoldable pub largest : ℕ → List ℕ → ℕ
largest interval [] = interval
largest interval (l ∷ ls) = largest (if ltb interval l then l else interval) ls

unfoldable pub interval_of : List ℕ → ℕ
interval_of [] = 0
interval_of (l ∷ ls) = largest l ls

-- The interval, and the processes with their metrics.
unfoldable pub calculate_metrics :
    (processors : ℕ) → List Process → (assignments : List ℕ) → ℕ × List Process
calculate_metrics processors ps cs =
    let (load, ps') = place_all (replicate processors 0) ps cs in (interval_of load, ps')

-- The swap of `generate_neighbor`, for the two processes it has drawn.
unfoldable pub swap : (process1 process2 : ℕ) → List ℕ → List ℕ
swap process1 process2 cs =
    set (set cs process1 (get_or cs process2 0)) process2 (get_or cs process1 0)

-- `generate_neighbor` on fuel for its `while`, which calls `rand()` until the two differ.
unfoldable pub redraw : (fuel processes : ℕ) → (ℕ → ℕ) → (process1 calls : ℕ) → Option ℕ
redraw zero processes rand process1 calls = none
redraw (suc fuel) processes rand process1 calls =
    let rest = redraw fuel processes rand process1 (suc calls) in
    let process2 = rand calls % processes in if process1 == process2 then rest else some process2

-- What is drawn in a round: two processes, as `generate_neighbor` and `redraw` draw them, which takes
-- two processes at least, and whether the `exp` test accepts.
pub record Draw : Type 0 where
  pub process1 : ℕ
  pub process2 : ℕ
  pub accepted : Bool

pub record State : Type 0 where
  pub proc_array : List Process
  pub current_assignments : List ℕ
  pub best_assignments : List ℕ
  pub best_interval : ℕ

-- The body of the `while` of `simulated_annealing`.
unfoldable pub anneal : (processors : ℕ) → Draw → State → State
anneal processors d s =
    let new_assignments = swap d.process1 d.process2 s.current_assignments in
    let (old_interval, ps) = calculate_metrics processors s.proc_array s.current_assignments in
    let (new_interval, ps') = calculate_metrics processors ps new_assignments in
    let moves = ltb new_interval old_interval || d.accepted in
    let current = if moves then new_assignments else s.current_assignments in
    let interval = if moves then new_interval else old_interval in
    if ltb interval s.best_interval
    then record {
      proc_array = ps';
      current_assignments = current;
      best_assignments = current;
      best_interval = interval;
    }
    else record s { proc_array = ps'; current_assignments = current }

-- The `while`: a list with the draws of each round.
unfoldable pub anneal_all : (processors : ℕ) → List Draw → State → State
anneal_all processors [] s = s
anneal_all processors (d ∷ ds) s = anneal_all processors ds (anneal processors d s)

-- `current_assignments` to begin with, from process i on. C leaves `i % 0` undefined.
unfoldable pub round_robin : (n i processors : ℕ) → List ℕ
round_robin zero i processors = []
round_robin (suc n) i processors = i % processors ∷ round_robin n (suc i) processors

unfoldable pub start : (processors : ℕ) → List Process → State
start processors head =
    let cs = round_robin (length head) 0 processors in
    let (interval, ps) = calculate_metrics processors head cs in
    record {
      proc_array = ps;
      current_assignments = cs;
      best_assignments = cs;
      best_interval = interval;
    }

-- The interval that is printed, and the list that is returned.
unfoldable pub simulated_annealing : (processors : ℕ) → List Draw → List Process → ℕ × List Process
simulated_annealing processors ds head =
    let s = anneal_all processors ds (start processors head) in
    (s.best_interval, (calculate_metrics processors s.proc_array s.best_assignments).1)
