-- ===== src/Scheduling/BubbleSort/Tests.antt =====
-- `bubble_sort` on two lists of two nodes.
use system_call_enhancement.Base.{ℕ, zero, suc, ◌≡◌, refl, none, some, arith}
use system_call_enhancement.Base.Int.{negsuc}
use system_call_enhancement.Scheduling.Mlfq.{Process}
use system_call_enhancement.Scheduling.BubbleSort.{
  Memory, returns, fault, exchange, pass, passes, bubble_sort,
}
use system_call_enhancement.Scheduling.BubbleSort.Outcomes.{link, last, bubble_sort_outcomes}

abbrev arriving : ℕ → Process
arriving t = record {
  pid = t;
  at = t;
  bt = 1;
  pr = 0;
  ct = negsuc 0;
  tat = negsuc 0;
  wt = negsuc 0;
  rt = negsuc 0;
  remain = 1;
}

-- Node 0 before node 1, arriving at the times given.
abbrev two_nodes : ℕ → ℕ → Memory
two_nodes s t zero = record { proc = arriving s; link = some 1 }
two_nodes s t (suc p) = record { proc = arriving t; link = none }

bubble_sort_outcomes_example : (bubble_sort 2 1 (two_nodes 3 5) (some 0) ≡ returns (two_nodes 3 5))
bubble_sort_outcomes_example =
    (bubble_sort_outcomes (two_nodes 3 5) 0).0 1 2 1 (link {q = 1} refl (omega arith) (last refl))
      (omega arith) (omega arith)

swapped_pair_faults : bubble_sort 2 2 (two_nodes 5 3) (some 0) ≡ fault
unfolding bubble_sort passes pass exchange
swapped_pair_faults = refl
