-- ===== src/Scheduling/Mlfq.antt =====
-- schedulling_algorithms/sched_algo_mlfq_existing.c: a multilevel feedback queue. The linked list
-- from `head` is a list; `int`s that are read from the user are natural numbers.
pub mod Queue
pub mod Serve
mod Tests
use mathlib.Core.Option
use system_call_enhancement.Base.{
  ℕ, zero, suc, ◌+◌, ◌-◌, ◌%◌, ◌==◌, leb, ltb, if◌then◌else◌, Bool, true, false, Option, none, some,
  List, [], ◌∷◌, ◌++◌, get_or, set, get_elem?, replicate,
}
use system_call_enhancement.Base.Int.{ℤ, pos, negsuc, ◌-ℤ◌}

-- `MAX` and `LEVELS`
abbrev pub max_len : ℕ
max_len = 100

abbrev pub levels : ℕ
levels = 3

-- `quantum[level]`: `QUANTUM_0`, `QUANTUM_1`, `QUANTUM_2`
abbrev pub quantum : ℕ → ℕ
quantum zero = 2
quantum (suc zero) = 4
quantum _ = 8

pub record Process : Type 0 where
  pub pid : ℕ
  pub at : ℕ
  pub bt : ℕ
  pub pr : ℕ
  pub ct : ℤ
  pub tat : ℤ
  pub wt : ℤ
  pub rt : ℤ
  pub remain : ℕ

-- `create_process` for the three numbers read.
unfoldable pub create_process : List Process → (v1 v2 v3 : ℕ) → List Process
create_process head v1 v2 v3 =
    head
    ++ (record {
      pid = v1;
      at = v2;
      bt = v3;
      pr = 0;
      ct = negsuc 0;
      tat = negsuc 0;
      wt = negsuc 0;
      rt = negsuc 0;
      remain = v3;
    }
        ∷ [])

-- One row of `queue` with its entries of `front` and `rear`, whose -1 is `none`.
pub record Level : Type 0 where
  pub cells : List ℕ
  pub front : Option ℕ
  pub rear : Option ℕ

abbrev pub same_index : Option ℕ → Option ℕ → Bool
same_index none none = true
same_index (some i) (some j) = i == j
same_index _ _ = false

-- `enqueue` on one level. The flag is true if it prints "Queue overflow" and drops the pid.
unfoldable pub enqueue : Level → ℕ → Bool × Level
enqueue q pid =
    let first : Level = record { cells = set q.cells 0 pid; front = some 0; rear = some 0 } in
    let next : ℕ → Level = λ r. record q { cells = set q.cells (r + 1) pid; rear = some (r + 1) } in
    if same_index q.rear (some (max_len - 1))
    then (true, q)
    else (false, elim q.rear [ none ↦ first | some r ↦ next r ])

-- `dequeue` on one level, `none` for -1.
unfoldable pub dequeue : Level → Option ℕ × Level
dequeue q = elim q.front [
  | none ↦ (none, q)
  | some f ↦ (
    some (get_or q.cells f 0),
    if same_index q.front q.rear
        then record q { front = none; rear = none }
        else record q { front = some (f + 1) },
  )
]

-- `find_process`: the index of the first process with the pid.
unfoldable pub find_process : List Process → ℕ → Option ℕ
find_process [] pid = none
find_process (p ∷ ps) pid = if p.pid == pid then some 0 else shift (find_process ps pid)
  where
    shift : Option ℕ → Option ℕ
    shift none = none
    shift (some i) = some (suc i)

-- The state of `mlfq`; `overflows` counts the messages printed by `enqueue`.
pub record Sim : Type 0 where
  pub queues : List Level
  pub procs : List Process
  pub current_time : ℕ
  pub overflows : ℕ

-- The two branches of the inner loop on the process, at the time it starts.
unfoldable pub finish : ℕ → Process → Process
finish start p =
    let ct = pos (start + p.remain) in
    let tat = ct -ℤ pos p.at in
    record p {
      remain = 0;
      ct = ct;
      tat = tat;
      wt = tat -ℤ pos p.bt;
      rt = ct -ℤ pos p.at -ℤ pos p.bt;
    }

abbrev pub preempt : ℕ → Process → Process
preempt q p = record p { remain = p.remain - q }

abbrev pub empty_level : Level
empty_level = record { cells = []; front = none; rear = none }

-- `enqueue(queue, front, rear, level, pid)`
unfoldable pub enqueue_at : ℕ → ℕ → Sim → Sim
enqueue_at level pid s =
    let (dropped, q) = enqueue (get_or s.queues level empty_level) pid in
    record s {
      queues = set s.queues level q;
      overflows = if dropped then s.overflows + 1 else s.overflows;
    }

-- When the process that is taken from a queue starts to run.
abbrev pub start_of : ℕ → Process → ℕ
start_of now p = if ltb now p.at then p.at else now

-- The inner loop's work on process j, taken from level i, whose queue is q without it.
unfoldable pub run_process : (i j pid : ℕ) → Level → Process → Sim → Sim
run_process i j pid q p s =
    let start = start_of s.current_time p in
    let finished = record s {
      queues = set s.queues i q;
      procs = set s.procs j (finish start p);
      current_time = start + p.remain;
    } in
    let preempted = record s {
      queues = set s.queues i q;
      procs = set s.procs j (preempt (quantum i) p);
      current_time = start + quantum i;
    } in
    if leb p.remain (quantum i)
    then finished
    else enqueue_at (if ltb i (levels - 1) then i + 1 else i) pid preempted

-- The body of the inner `while` on level i, `none` where it dereferences a null pointer.
unfoldable pub serve : ℕ → Sim → Option Sim
serve i s =
    let (front, q) = dequeue (get_or s.queues i empty_level) in
    elim front [
      | none ↦ none
      | some pid ↦ elim (find_process s.procs pid) [
        | none ↦ none
        | some j ↦ Option.map (λ p. run_process i j pid q p s) (get_elem? s.procs j)
      ]
    ]

-- How a loop on fuel ends.
pub data Result : Type 0 where
  done : (all_done : Bool) → Sim → Result
  fault : Result
  out_of_fuel : Result

-- The inner `while` on level i.
unfoldable pub drain : (fuel i : ℕ) → (all_done : Bool) → Sim → Result
drain zero i all_done s = out_of_fuel
drain (suc fuel) i all_done s = elim (get_or s.queues i empty_level).front [
  | none ↦ done all_done s
  | some _ ↦ elim (serve i s) [ none ↦ fault | some s' ↦ drain fuel i false s' ]
]

-- The `for` over the levels from level i, with `rounds` of them left.
unfoldable pub drain_levels : (fuel rounds i : ℕ) → (all_done : Bool) → Sim → Result
drain_levels fuel zero i all_done s = done all_done s
drain_levels fuel (suc rounds) i all_done s = elim (drain fuel i all_done s) [
  | done all_done' s' ↦ drain_levels fuel rounds (suc i) all_done' s'
  | fault ↦ fault
  | out_of_fuel ↦ out_of_fuel
]

-- The `while (1)` of `mlfq`; each of its loops has the fuel given first.
unfoldable pub mlfq_loop : (inner fuel : ℕ) → Sim → Result
mlfq_loop inner zero s = out_of_fuel
mlfq_loop inner (suc fuel) s = elim (drain_levels inner levels 0 true s) [
  | done true s' ↦ done true s'
  | done false s' ↦ mlfq_loop inner fuel (record s' { current_time = s'.current_time + 1 })
  | fault ↦ fault
  | out_of_fuel ↦ out_of_fuel
]

-- The loop of `mlfq` that enqueues every process at level 0.
unfoldable pub enqueue_all : List Process → Sim → Sim
enqueue_all [] s = s
enqueue_all (p ∷ ps) s = enqueue_all ps (enqueue_at 0 p.pid s)

unfoldable pub mlfq : (fuel : ℕ) → List Process → Result
mlfq fuel head = mlfq_loop fuel fuel (
    enqueue_all head (record {
      queues = replicate levels (record { cells = replicate max_len 0; front = none; rear = none });
      procs = head;
      current_time = 0;
      overflows = 0;
    }))

-- The loop of `assign_processors`, with its counter i. C leaves `i % 0` undefined.
unfoldable pub assign_from : (i processors : ℕ) → List Process → List Process
assign_from i processors [] = []
assign_from i processors (p ∷ ps) =
    record p { pr = i % processors } ∷ assign_from (suc i) processors ps

unfoldable pub assign_processors : ℕ → List Process → List Process
assign_processors processors head = assign_from 0 processors head
