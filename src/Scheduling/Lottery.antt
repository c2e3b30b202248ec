-- ===== src/Scheduling/Lottery.antt =====
-- schedulling_algorithms/sched_algo_lottery_improved.c: a lottery scheduler. The linked list from
-- `head` is a list; `rand()` is a stream of numbers, one for each call. An `int` that is read from
-- the user is a natural number; those that start at -1 or are counted down are integers.
pub mod Draw
pub mod Rounds
pub mod Ends
mod Tests
use mathlib.Core.Option
use system_call_enhancement.Base.{
  ℕ, zero, suc, ◌+◌, ◌%◌, ◌==◌, leb, if◌then◌else◌, Bool, true, false, not, ◌&&◌, Option, none,
  some, List, [], ◌∷◌, ◌++◌, ◌-◌, ltb, length, get_elem?,
}
use system_call_enhancement.Base.Int.{ℤ, pos, negsuc, ◌+ℤ◌, ◌-ℤ◌, eqb_ℤ}

pub record Process : Type 0 where
  pub pid : ℕ
  pub tt : ℕ
  pub at : ℕ
  pub bt : ℕ
  pub pr : ℤ
  pub ct : ℤ
  pub tat : ℤ
  pub wt : ℤ
  pub rt : ℤ
  pub remaining_time : ℤ
  pub completed : Bool

-- The process that `create_process` appends for the four numbers read.
abbrev pub new_process : (v1 v2 v3 v4 : ℕ) → Process
new_process v1 v2 v3 v4 = record {
  pid = v1;
  tt = v2;
  at = v3;
  bt = v4;
  pr = negsuc 0;
  ct = negsuc 0;
  tat = negsuc 0;
  wt = negsuc 0;
  rt = negsuc 0;
  remaining_time = pos v4;
  completed = false;
}

unfoldable pub create_process : List Process → (v1 v2 v3 v4 : ℕ) → List Process
create_process head v1 v2 v3 v4 = head ++ (new_process v1 v2 v3 v4 ∷ [])

-- The loop of `assign_processors`, with its counter i. C leaves `i % 0` undefined.
unfoldable pub assign_from : (i processors : ℕ) → List Process → List Process
assign_from i processors [] = []
assign_from i processors (p ∷ ps) =
    record p { pr = pos (i % processors) } ∷ assign_from (suc i) processors ps

unfoldable pub assign_processors : ℕ → List Process → List Process
unfolding assign_from
assign_processors processors head = assign_from 0 processors head

-- The test that the loops of `calculate_total_tickets` and `lottery_draw` share.
abbrev pub eligible : ℕ → Process → Bool
eligible current_time p = not p.completed && leb p.at current_time

unfoldable pub total_from : ℕ → ℕ → List Process → ℕ
total_from current_time total [] = total
total_from current_time total (p ∷ ps) =
    total_from current_time (if eligible current_time p then total + p.tt else total) ps

unfoldable pub calculate_total_tickets : List Process → ℕ → ℕ
unfolding total_from
calculate_total_tickets head current_time = total_from current_time 0 head

-- The loop of `lottery_draw`: the index of the winner, from index i on.
unfoldable pub draw_from :
    (current_time winning_ticket ticket_count i : ℕ) → List Process → Option ℕ
draw_from current_time winning_ticket ticket_count i [] = none
draw_from current_time winning_ticket ticket_count i (p ∷ ps) =
    let rest = draw_from current_time winning_ticket ticket_count (suc i) ps in
    let count = ticket_count + p.tt in
    let rest' = draw_from current_time winning_ticket count (suc i) ps in
    if eligible current_time p then (if leb winning_ticket count then some i else rest') else rest

-- `roll` is what `rand()` returns.
unfoldable pub lottery_draw : List Process → (total_tickets current_time roll : ℕ) → Option ℕ
unfolding draw_from
lottery_draw head total_tickets current_time roll =
    if total_tickets == 0 then none else draw_from current_time (roll % total_tickets + 1) 0 0 head

-- `calculate_metrics` on one process.
abbrev pub with_metrics : Process → Process
with_metrics p =
    let tat = p.ct -ℤ pos p.at in
    record p {
      tat = tat;
      wt = tat -ℤ pos p.bt;
      rt = if eqb_ℤ p.rt (negsuc 0) then pos p.at else p.rt;
    }

unfoldable pub calculate_metrics : List Process → List Process
calculate_metrics [] = []
calculate_metrics (p ∷ ps) = with_metrics p ∷ calculate_metrics ps

-- The state of the `while` loop of `main`.
pub record Run : Type 0 where
  pub processes : List Process
  pub active_processes : ℕ
  pub round : ℕ
  pub current_time : ℕ

-- What a round does to the selected process.
unfoldable pub run_process : ℕ → Process → Process
run_process current_time p =
    let left = p.remaining_time -ℤ pos 1 in
    let rt = if eqb_ℤ p.rt (negsuc 0) then pos current_time -ℤ pos p.at else p.rt in
    if eqb_ℤ left (pos 0)
    then record p { rt = rt; remaining_time = left; completed = true; ct = pos (current_time + 1) }
    else record p { rt = rt; remaining_time = left }

-- An assignment to fields of `*selected_process`, the process at an index.
abbrev pub modify : List Process → ℕ → (Process → Process) → List Process
modify [] i f = []
modify (p ∷ ps) zero f = f p ∷ ps
modify (p ∷ ps) (suc i) f = p ∷ modify ps i f

-- Whether a round completes the process.
abbrev pub completes : Process → Bool
completes p = eqb_ℤ (p.remaining_time -ℤ pos 1) (pos 0)

-- A round that has selected process i.
unfoldable pub run_selected : ℕ → Run → Run
unfolding run_process
run_selected i s =
    let completed : Bool = elim (get_elem? s.processes i) [ none ↦ false | some p ↦ completes p ] in
    record {
      processes = modify s.processes i (run_process s.current_time);
      active_processes = if completed then s.active_processes - 1 else s.active_processes;
      round = s.round + 1;
      current_time = s.current_time + 1;
    }

-- The body of the `while` loop, for what `rand()` returns if the round draws.
unfoldable pub play_round : ℕ → Run → Run
play_round roll s =
    let total_tickets = calculate_total_tickets s.processes s.current_time in
    elim (lottery_draw s.processes total_tickets s.current_time roll) [
      | none ↦ record s { current_time = s.current_time + 1 }
      | some i ↦ run_selected i s
    ]

-- The `while` loop on fuel, `none` if that runs out. `rand t` is what a call of `rand()` in the
-- round at time t returns: every round takes one unit of time, and calls it at most once.
unfoldable pub run_rounds : ℕ → (ℕ → ℕ) → Run → Option Run
run_rounds zero rand s = none
run_rounds (suc fuel) rand s =
    let rest = run_rounds fuel rand (play_round (rand s.current_time) s) in
    if ltb 0 s.active_processes then rest else some s

-- `main` from the processes that were read to the metrics.
unfoldable pub main : ℕ → (ℕ → ℕ) → (processors : ℕ) → List Process → Option (List Process)
main fuel rand processors head =
    Option.map (λ s. calculate_metrics s.processes)
      (run_rounds fuel rand (record {
        processes = assign_processors processors head;
        active_processes = length head;
        round = 1;
        current_time = 0;
      }))
