-- ===== src/Scheduling/Annealing/Best.antt =====
-- The interval that sched_algo_sa.c prints is that of the assignment it returns.
use system_call_enhancement.Base.{
  ℕ, suc, ◌≤◌, ◌<◌, ltb, if◌then◌else◌, Bool, true, false, ◌||◌, List, [], ◌∷◌, replicate, length,
  map, All, ◌≡◌, ◌≢◌, refl, arith, ap, ◌∙◌, sym, Bool-cases, ltb→lt, inl, inr,
}
use system_call_enhancement.Scheduling.Annealing.{
  Process, calculate_metrics, swap, Draw, State, anneal, anneal_all, round_robin, start,
  simulated_annealing,
}
use system_call_enhancement.Scheduling.Annealing.Assignments.{
  job, span, timed, calculate_metrics-span, calculate_metrics-timed, IsAssignment,
  swap-IsAssignment, round_robin-IsAssignment, dealt, round_robin-dealt,
}

-- The processes are still those jobs, the best interval is that of the best assignment and at most
-- b, and both assignments have a processor for each process.
record IsBest (processors : ℕ) (js : List (ℕ × ℕ × ℕ)) (b : ℕ) (s : State) : Type 0 where
  same : map job s.proc_array ≡ js
  best : s.best_interval ≡ span processors js s.best_assignments
  bound : s.best_interval ≤ b
  current_fits : IsAssignment processors (length js) s.current_assignments
  best_fits : IsAssignment processors (length js) s.best_assignments

either {ℓ} :
    (t : Bool) (P : List ℕ → Type ℓ) (xs ys : List ℕ) → P xs → P ys → P (if t then xs else ys)
either true P xs ys p q = p
either false P xs ys p q = q

chosen :
    (t : Bool) (f : List ℕ → ℕ) (xs ys : List ℕ) {x y : ℕ}
    → x ≡ f xs
    → y ≡ f ys
    → (if t then x else y) ≡ f (if t then xs else ys)
chosen true f xs ys e g = e
chosen false f xs ys e g = g

anneal-IsBest :
    (processors : ℕ) (d : Draw) {js : List (ℕ × ℕ × ℕ)} {b : ℕ} {s : State}
    → 0 < processors
    → IsBest processors js b s
    → IsBest processors js b (anneal processors d s)
unfolding anneal
anneal-IsBest processors d {js} {b} {s} some_processor v =
    elim (Bool-cases (ltb interval s.best_interval)) [
      | inl e ↦ rw e (record {
        same = same';
        best =
            chosen moves (span processors js) new s.current_assignments
              (next.0 ∙ ap (λ xs. span processors xs new) (now.1 ∙ v.same))
              (now.0 ∙ ap (λ xs. span processors xs s.current_assignments) v.same);
        bound = omega (arith, v.bound, ltb→lt interval s.best_interval e);
        current_fits = now_fits;
        best_fits = now_fits;
      })
      | inr e ↦ rw e (record {
        same = same';
        best = v.best;
        bound = v.bound;
        current_fits = now_fits;
        best_fits = v.best_fits;
      })
    ]
  where
    new : List ℕ
    new = swap d.process1 d.process2 s.current_assignments

    old_run : ℕ × List Process
    old_run = calculate_metrics processors s.proc_array s.current_assignments

    new_run : ℕ × List Process
    new_run = calculate_metrics processors old_run.1 new

    moves : Bool
    moves = ltb new_run.0 old_run.0 || d.accepted

    interval : ℕ
    interval = if moves then new_run.0 else old_run.0

    now_fits : IsAssignment processors (length js) (if moves then new else s.current_assignments)
    now_fits =
        either moves (IsAssignment processors (length js)) new s.current_assignments
          (swap-IsAssignment some_processor d.process1 d.process2 s.current_assignments
            v.current_fits)
          v.current_fits

    now :
        (old_run.0 ≡ span processors (map job s.proc_array) s.current_assignments)
        × (map job old_run.1 ≡ map job s.proc_array)
    now = calculate_metrics-span processors s.proc_array s.current_assignments

    next :
        (new_run.0 ≡ span processors (map job old_run.1) new)
        × (map job new_run.1 ≡ map job old_run.1)
    next = calculate_metrics-span processors old_run.1 new

    same' : map job new_run.1 ≡ js
    same' = next.1 ∙ now.1 ∙ v.same

anneal_all-IsBest :
    (processors : ℕ) (ds : List Draw) {js : List (ℕ × ℕ × ℕ)} {b : ℕ} {s : State}
    → 0 < processors
    → IsBest processors js b s
    → IsBest processors js b (anneal_all processors ds s)
unfolding anneal_all
anneal_all-IsBest processors [] some_processor v = v
anneal_all-IsBest processors (d ∷ ds) some_processor v =
    anneal_all-IsBest processors ds some_processor (anneal-IsBest processors d some_processor v)

length-map {ℓ} : {A B : Type ℓ} (f : A → B) (xs : List A) → length (map f xs) ≡ length xs
length-map f [] = refl
length-map f (x ∷ xs) = ap suc (length-map f xs)

start-IsBest :
    (processors : ℕ) (head : List Process)
    → 0 < processors
    → IsBest processors
        (map job head)
        (span processors (map job head) (dealt (length head) processors))
        (start processors head)
unfolding start
start-IsBest processors head some_processor =
    let cs = round_robin (length head) 0 processors in
    let (e, same) = calculate_metrics-span processors head cs in
    let (l, h) = round_robin-IsAssignment some_processor (length head) 0 in
    let fits : IsAssignment processors (length (map job head)) cs =
      (l ∙ sym (length-map job head), h) in
    let first = ap (span processors (map job head)) (round_robin-dealt (length head) processors) in
    record {
      same = same;
      best = e;
      bound = omega (arith, e, first);
      current_fits = fits;
      best_fits = fits;
    }

-- Two processes that `generate_neighbor` may draw out of n
pub record IsDraw (n : ℕ) (d : Draw) : Type 0 where
  pub first : d.process1 < n
  pub second : d.process2 < n
  pub apart : d.process1 ≢ d.process2

-- What the annealing prints and returns, for the jobs of the processes
pub record Annealed (processors : ℕ) (head : List Process) (out : ℕ × List Process) : Type 0 where
  pub assignment : List ℕ
  pub before : List Process
  pub jobs : map job before ≡ map job head
  pub one_each : length assignment ≡ length head
  pub exist : All (λ a. a < processors) assignment
  pub interval : out.0 ≡ span processors (map job head) assignment
  pub times : out.1 ≡ timed (replicate processors 0) before assignment
  pub no_worse : out.0 ≤ span processors (map job head) (dealt (length head) processors)

-- For at least one processor and two processes, and whatever pairs of different processes are drawn
-- and accepted, `simulated_annealing` ends with an assignment that gives each process one of the
-- processors. The interval printed is the largest load under it, when each process starts as soon
-- as its processor is free and it has arrived; the processes returned have the times of that same
-- schedule, with their pids, arrivals and bursts unchanged; and the interval is at most that of
-- dealing the processes out in turn.
pub simulated_annealing_lem :
    (processors : ℕ) (ds : List Draw) (head : List Process)
    → 0 < processors
    → 1 < length head
    → All (IsDraw (length head)) ds
    → Annealed processors head (simulated_annealing processors ds head)
unfolding simulated_annealing
simulated_annealing_lem processors ds head some_processor two draws =
    let v =
      anneal_all-IsBest processors ds some_processor
        (start-IsBest processors head some_processor) in
    let s = anneal_all processors ds (start processors head) in
    record {
      assignment = s.best_assignments;
      before = s.proc_array;
      jobs = v.same;
      one_each = v.best_fits.0 ∙ length-map job head;
      exist = v.best_fits.1;
      interval = v.best;
      times = calculate_metrics-timed processors s.proc_array s.best_assignments;
      no_worse = v.bound;
    }
