-- ===== src/Scheduling/Lottery/Rounds.antt =====
-- The `while` loop of sched_algo_lottery_improved.c ends, and what holds in every round of it.
use system_call_enhancement.Base.{
  ℕ, zero, suc, ◌+◌, ◌-◌, ◌≤◌, ◌<◌, if◌then◌else◌, true, false, some, List, [], ◌∷◌, ◌≡◌, ap, sym,
  subst, map, ◌⊎◌, arith, get_elem?, All,
}
use system_call_enhancement.Base.Int.{pos, ◌-ℤ◌, ◌≤ℤ◌, pos_part, neg_part, pred_parts}
use system_call_enhancement.Scheduling.Lottery.{
  Process, Run, eligible, modify, completes, run_process,
}
use system_call_enhancement.Scheduling.Lottery.Draw.{tickets}

-- What is left to run of a process that is not completed, at time t: between 1 and its burst; it
-- has not run for longer than since it arrived. One that is completed took at least its burst.
pub record IsRunning (t : ℕ) (p : Process) : Type 0 where
  pub left : pos 1 ≤ℤ p.remaining_time
  pub burst : p.remaining_time ≤ℤ pos p.bt
  pub since : (p.remaining_time ≡ pos p.bt) ⊎ (p.bt + p.at ≤ t + pos_part p.remaining_time)

pub record IsDone (t : ℕ) (p : Process) : Type 0 where
  pub nothing_left : p.remaining_time ≡ pos 0
  pub spent : pos (p.at + p.bt) ≤ℤ p.ct
  pub past : p.ct ≤ℤ pos t

abbrev pub IsFine : ℕ → Process → Type 0
IsFine t p = (0 < p.tt) × (p.completed ≡ true → IsDone t p) × (p.completed ≡ false → IsRunning t p)

-- How many processes are not completed, and how long they will run.
unfoldable pub active : List Process → ℕ
active [] = 0
active (p ∷ ps) = (if p.completed then 0 else 1) + active ps

unfoldable pub work : List Process → ℕ
work [] = 0
work (p ∷ ps) = (if p.completed then 0 else pos_part p.remaining_time) + work ps

-- No process arrives after time b.
abbrev pub ArriveBy : ℕ → List Process → Type 0
ArriveBy b = All (λ p. p.at ≤ b)

module _ (t : ℕ) (p : Process) (e : eligible t p ≡ true) (f : IsFine t p) where
  open_process : IsRunning t p
  open_process = f.2 (ground arith)

  -- One unit of time is taken off.
  left_after : pos_part (p.remaining_time -ℤ pos 1) + 1 ≡ pos_part p.remaining_time
  left_after = (pred_parts p.remaining_time open_process.left).0

  left_nonneg : neg_part (p.remaining_time -ℤ pos 1) ≡ 0
  left_nonneg = (pred_parts p.remaining_time open_process.left).1

  run_process-IsDone : (run_process t p).completed ≡ true → IsDone (t + 1) (run_process t p)
  unfolding run_process
  run_process-IsDone h =
      ground (arith, left_after, left_nonneg, open_process.since, open_process.left)

  run_process-IsRunning : (run_process t p).completed ≡ false → IsRunning (t + 1) (run_process t p)
  unfolding run_process
  run_process-IsRunning h =
      ground
        (arith, left_after, left_nonneg, open_process.since, open_process.left, open_process.burst)

  tt-run_process : (run_process t p).tt ≡ p.tt
  unfolding run_process
  tt-run_process = ground arith

-- What no round changes of a process.
abbrev pub job : Process → ℕ × ℕ × ℕ × ℕ
job p = (p.pid, p.tt, p.at, p.bt)

job-run_process : (t : ℕ) (p : Process) → job (run_process t p) ≡ job p
unfolding run_process
job-run_process t p = ground arith

pub IsFine-later : (t : ℕ) (p : Process) → IsFine t p → IsFine (t + 1) p
IsFine-later t p f = (
  f.0,
  (λ h.
      let d = f.1 h in
      record { nothing_left = d.nothing_left; spent = d.spent; past = omega (arith, d.past) }),
  (λ h.
      let r = f.2 h in record { left = r.left; burst = r.burst; since = ground (arith, r.since) }),
)

pub All-later : (t : ℕ) (ps : List Process) → All (IsFine t) ps → All (IsFine (t + 1)) ps
All-later t [] f = tt
All-later t (p ∷ ps) f = (IsFine-later t p f.0, All-later t ps f.1)

-- What a round does to the list when process i, eligible at time t, is selected.
pub record Advances (t i : ℕ) (p : Process) (ps : List Process) : Type 0 where
  pub fine : All (IsFine (t + 1)) (modify ps i (run_process t))
  pub jobs : map job (modify ps i (run_process t)) ≡ map job ps
  pub less : work (modify ps i (run_process t)) + 1 ≡ work ps
  pub fewer : active (modify ps i (run_process t)) + (if completes p then 1 else 0) ≡ active ps

head-Advances :
    (t : ℕ) (p : Process) (ps : List Process)
    → eligible t p ≡ true
    → All (IsFine t) (p ∷ ps)
    → Advances t 0 p (p ∷ ps)
unfolding work active run_process
head-Advances t p ps e f = record {
  fine = (
    (
      subst (λ (n : ℕ). 0 < n) (sym (tt-run_process t p e f.0)) f.0.0,
      run_process-IsDone t p e f.0,
      run_process-IsRunning t p e f.0,
    ),
    All-later t ps f.1,
  );
  jobs = ap (λ j. j ∷ map job ps) (job-run_process t p);
  less = ground (arith, left_after t p e f.0, left_nonneg t p e f.0);
  fewer = ground (arith, left_after t p e f.0, left_nonneg t p e f.0);
}

pub modify-Advances :
    (t i : ℕ) (ps : List Process) {p : Process}
    → get_elem? ps i ≡ some p
    → eligible t p ≡ true
    → All (IsFine t) ps
    → Advances t i p ps
unfolding work active
modify-Advances t i [] g e f = absurd (ground arith)
modify-Advances t zero (p ∷ ps) {p = q} g e f =
    let same : q ≡ p = cc in
    subst (λ (r : Process). Advances t 0 r (p ∷ ps)) (sym same)
      (head-Advances t p ps (subst (λ (r : Process). eligible t r ≡ true) same e) f)
modify-Advances t (suc i) (p ∷ ps) {p = q} g e f =
    let a = modify-Advances t i ps {p = q} g e f.1 in
    record {
      fine = (IsFine-later t p f.0, a.fine);
      jobs = ap (◌∷◌ (job p)) a.jobs;
      less = omega (arith, a.less);
      fewer = omega (arith, a.fewer);
    }

-- With no eligible ticket, whoever is not completed arrives later.
pub tickets-zero :
    (t b : ℕ) (ps : List Process)
    → All (IsFine t) ps
    → ArriveBy b ps
    → tickets t ps ≡ 0
    → 0 < active ps
    → t < b
unfolding tickets active
tickets-zero t b [] f a z h = absurd (omega arith)
tickets-zero t b (p ∷ ps) f a z h = ground (arith, f.0, a.0, tickets-zero t b ps f.1 a.1)

pub record IsGood (jobs : List (ℕ × ℕ × ℕ × ℕ)) (b : ℕ) (s : Run) : Type 0 where
  pub fine : All (IsFine s.current_time) s.processes
  pub arrive : ArriveBy b s.processes
  pub same : map job s.processes ≡ jobs
  pub counted : s.active_processes ≡ active s.processes

-- What bounds the rounds to come.
abbrev pub measure : ℕ → Run → ℕ
measure b s = (b - s.current_time) + work s.processes
