-- ===== src/Scheduling/MlfqImproved.antt =====
-- schedulling_algorithms/sched_algo_mlfqs_improved.c: a round robin, then a round robin whose time
-- quantum is taken from the processes. The linked list from `head` is a list; `int`s that are read
-- from the user are natural numbers. A queue has the form of a level of sched_algo_mlfq_existing.c,
-- and the same `dequeue`.
pub mod Quantum
pub mod Absent
pub mod Phases
mod Tests
use system_call_enhancement.Base.{
  ℕ, zero, suc, ◌+◌, ◌-◌, ◌*◌, ◌/◌, ◌%◌, ◌==◌, leb, ltb, if◌then◌else◌, Bool, true, false, ◌&&◌,
  ◌||◌, Option, none, some, List, [], ◌∷◌, ◌++◌, get_or, set, get_elem?, length, replicate,
}
use system_call_enhancement.Base.Int.{ℤ, pos, negsuc, ◌-ℤ◌}
use system_call_enhancement.Scheduling.Mlfq.{max_len, Level, dequeue}

pub record Process : Type 0 where
  pub pid : ℕ
  pub at : ℕ
  pub bt : ℕ
  pub pr : ℤ
  pub ct : ℤ
  pub tat : ℤ
  pub wt : ℤ
  pub rt : ℤ
  pub remain : ℕ

-- `create_process` for the three numbers read.
unfoldable pub create_process : List Process → (v1 v2 v3 : ℕ) → List Process
create_process head v1 v2 v3 =
    head
    ++ (record {
      pid = v1;
      at = v2;
      bt = v3;
      pr = negsuc 0;
      ct = negsuc 0;
      tat = negsuc 0;
      wt = negsuc 0;
      rt = negsuc 0;
      remain = v3;
    }
        ∷ [])

-- The search of `enqueue` for the pid in n cells from i on.
unfoldable pub in_cells : (cells : List ℕ) → (n i pid : ℕ) → Bool
in_cells cells zero i pid = false
in_cells cells (suc n) i pid = get_or cells i 0 == pid || in_cells cells n (suc i) pid

-- With `front` and `rear` at -1 the search looks at queue[-1], whose value is `stray`.
unfoldable pub is_in_queue : (stray : ℕ) → Level → ℕ → Bool
is_in_queue stray q pid = elim q.front [
  | none ↦ stray == pid || (elim q.rear [ none ↦ false | some r ↦ in_cells q.cells (suc r) 0 pid ])
  | some f ↦ elim q.rear [ none ↦ false | some r ↦ in_cells q.cells (suc r - f) f pid ]
]

-- The work of `enqueue` on one pid; `none` where it writes past the end of the array.
unfoldable pub enqueue_pid : (stray : ℕ) → Level → ℕ → Option Level
enqueue_pid stray q pid = if is_in_queue stray q pid then some q else elim q.rear [
  | none ↦ some (record { cells = set q.cells 0 pid; front = some 0; rear = some 0 })
  | some r ↦
      if ltb (r + 1) max_len
      then some (record q { cells = set q.cells (r + 1) pid; rear = some (r + 1) })
      else none
]

-- The loop of `enqueue` over the processes.
unfoldable pub enqueue_ready : (stray now : ℕ) → List Process → Level → Option Level
enqueue_ready stray now [] q = some q
enqueue_ready stray now (p ∷ ps) q =
    elim (if leb p.at now && ltb 0 p.remain then enqueue_pid stray q p.pid else some q) [
      | none ↦ none
      | some q₁ ↦ enqueue_ready stray now ps q₁
    ]

-- `enqueue`, whose last argument is `none` for -1.
unfoldable pub enqueue : (stray now : ℕ) → List Process → Level → Option ℕ → Option Level
enqueue stray now head q pid = elim (enqueue_ready stray now head q) [
  | none ↦ none
  | some q₁ ↦ elim pid [ none ↦ some q₁ | some p ↦ enqueue_pid stray q₁ p ]
]

-- `find_process`: the index of the first process with the pid.
unfoldable pub find_process : List Process → ℕ → Option ℕ
find_process [] pid = none
find_process (p ∷ ps) pid = if p.pid == pid then some 0 else shift (find_process ps pid)
  where
    shift : Option ℕ → Option ℕ
    shift none = none
    shift (some i) = some (suc i)

-- The processes that `dynamic_time_quantum` puts into `sorted`
abbrev pub unfinished : List Process → List Process
unfinished [] = []
unfinished (p ∷ ps) = if ltb 0 p.remain then p ∷ unfinished ps else unfinished ps

-- The inner loop of its bubble sort, with n steps left.
unfoldable pub bubble_pass : ℕ → List Process → List Process
bubble_pass zero ps = ps
bubble_pass (suc n) [] = []
bubble_pass (suc n) (p ∷ []) = p ∷ []
bubble_pass (suc n) (p ∷ q ∷ ps) =
    let greater = ltb q.remain p.remain in
    (if greater then q else p) ∷ bubble_pass n ((if greater then p else q) ∷ ps)

-- The outer loop, with count - j - 1 given.
unfoldable pub bubble_sort : ℕ → List Process → List Process
bubble_sort zero ps = ps
bubble_sort (suc n) ps = bubble_sort n (bubble_pass (suc n) ps)

-- `position` for the count
abbrev pub position : ℕ → ℕ
position count = if leb count (2 * count / 3) then count - 1 else 2 * count / 3

-- The new value of `*time_quantum`.
unfoldable pub dynamic_time_quantum : List Process → ℕ → ℕ
dynamic_time_quantum head time_quantum =
    let count = length (unfinished head) in
    if ltb 0 count
    then (elim (get_elem? (bubble_sort (count - 1) (unfinished head)) (position count)) [
      | none ↦ time_quantum
      | some p ↦ p.remain
    ])
    else time_quantum

abbrev pub all_processes_completed : List Process → Bool
all_processes_completed [] = true
all_processes_completed (p ∷ ps) = if ltb 0 p.remain then false else all_processes_completed ps

-- The state of `rr` and of `sjf`, with the global `current_time`.
pub record Sim : Type 0 where
  pub queue : Level
  pub procs : List Process
  pub current_time : ℕ

-- The branch on a process that needs no more than the quantum.
unfoldable pub finish : ℕ → Process → Process
finish now p =
    let ct = pos (now + p.remain) in
    let tat = ct -ℤ pos p.at in
    record p {
      remain = 0;
      ct = ct;
      tat = tat;
      wt = tat -ℤ pos p.bt;
      rt = ct -ℤ pos p.at -ℤ pos p.bt;
    }

-- The body of the loops from `find_process` on, for process j.
unfoldable pub run_process : (stray time_quantum j : ℕ) → Level → Process → Sim → Option Sim
run_process stray time_quantum j q p s =
    if leb p.remain time_quantum
    then some (record {
      queue = q;
      procs = set s.procs j (finish s.current_time p);
      current_time = s.current_time + p.remain;
    })
    else (let now = s.current_time + time_quantum in
        let procs = set s.procs j (record p { remain = p.remain - time_quantum }) in
        elim (enqueue stray now procs q (some p.pid)) [
          | none ↦ none
          | some q₁ ↦ some (record { queue = q₁; procs = procs; current_time = now })
        ])

-- The body of the loops of `rr` and `sjf`; `none` is a write past the end of the queue, or a null
-- pointer.
unfoldable pub turn : (stray time_quantum : ℕ) → Sim → Option Sim
turn stray time_quantum s =
    let (front, q) = dequeue s.queue in
    elim front [
      | none ↦ elim (enqueue stray (s.current_time + 1) s.procs q none) [
        | none ↦ none
        | some q₁ ↦ some (record s { queue = q₁; current_time = s.current_time + 1 })
      ]
      | some pid ↦ elim (find_process s.procs pid) [
        | none ↦ none
        | some j ↦ elim (get_elem? s.procs j) [
          | none ↦ none
          | some p ↦ run_process stray time_quantum j q p s
        ]
      ]
    ]

-- How a loop on fuel ends.
pub data Result : Type 0 where
  done : Sim → Result
  fault : Result
  out_of_fuel : Result

unfoldable pub turns : (fuel stray time_quantum : ℕ) → Sim → Result
turns zero stray time_quantum s = out_of_fuel
turns (suc fuel) stray time_quantum s =
    if all_processes_completed s.procs then done s else elim (turn stray time_quantum s) [
      | none ↦ fault
      | some s₁ ↦ turns fuel stray time_quantum s₁
    ]

abbrev pub no_queue : Level
no_queue = record { cells = replicate max_len 0; front = none; rear = none }

-- `rr` and `sjf` from their first `enqueue` on, for the quantum that they use.
unfoldable pub run_queue : (fuel stray time_quantum now : ℕ) → List Process → Result
run_queue fuel stray time_quantum now head = elim (enqueue stray now head no_queue none) [
  | none ↦ fault
  | some q ↦ turns fuel stray time_quantum (record { queue = q; procs = head; current_time = now })
]

-- `rr`, with `time_quantum_rr`
unfoldable pub rr : (fuel stray now : ℕ) → List Process → Result
rr fuel stray now head = run_queue fuel stray 2 now head

-- `sjf`, for the value of `time_quantum_sjf` before it.
unfoldable pub sjf : (fuel stray time_quantum_sjf now : ℕ) → List Process → Result
sjf fuel stray time_quantum_sjf now head =
    run_queue fuel stray (dynamic_time_quantum head time_quantum_sjf) now head

-- The loop of `assign_processors`, with its counter i. C leaves `i % 0` undefined.
unfoldable pub assign_from : (i processors : ℕ) → List Process → List Process
assign_from i processors [] = []
assign_from i processors (p ∷ ps) =
    record p { pr = pos (i % processors) } ∷ assign_from (suc i) processors ps

unfoldable pub assign_processors : ℕ → List Process → List Process
assign_processors processors head = assign_from 0 processors head

-- `main` once the processes are read.
unfoldable pub schedule : (fuel stray processors : ℕ) → List Process → Result
schedule fuel stray processors head = elim (rr fuel stray 0 (assign_processors processors head)) [
  | done s ↦ sjf fuel stray 0 s.current_time s.procs
  | fault ↦ fault
  | out_of_fuel ↦ out_of_fuel
]
