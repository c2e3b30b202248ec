-- ===== src/Scheduling/Annealing/Assignments.antt =====
-- What an assignment of processes to processors comes to in sched_algo_sa.c, and which ones the
-- annealing goes through.
use system_call_enhancement.Base.{
  ℕ, zero, suc, ◌+◌, ◌%◌, ◌<◌, ltb, if◌then◌else◌, max, List, [], ◌∷◌, ◌++◌, get_or, set, replicate,
  length, length-set, map, All, ◌≡◌, refl, arith, ap, ◌∙◌,
}
use system_call_enhancement.Base.Int.{pos, ◌-ℤ◌}
use system_call_enhancement.Scheduling.Annealing.{
  Process, start_of, place, place_all, largest, interval_of, calculate_metrics, swap, round_robin,
}

-- What the program reads of a process.
abbrev pub job : Process → ℕ × ℕ × ℕ
job p = (p.pid, p.at, p.bt)

start_of-max : (load arrival_time : ℕ) → start_of load arrival_time ≡ max load arrival_time
start_of-max load arrival_time = ground arith

-- The loads of the processors, from the jobs alone: a process starts when its processor is free and
-- it has arrived.
unfoldable pub loads : List ℕ → List (ℕ × ℕ × ℕ) → List ℕ → List ℕ
loads load [] cs = load
loads load (j ∷ js) [] = load
loads load (j ∷ js) (a ∷ cs) = loads (set load a (max (get_or load a 0) j.1 + j.2)) js cs

-- A process that starts at time t on a processor
abbrev pub started : (processor t : ℕ) → Process → Process
started processor t p = record p {
  pr = pos processor;
  ct = pos (t + p.bt);
  tat = pos (t + p.bt) -ℤ pos p.at;
  wt = pos (t + p.bt) -ℤ pos p.at -ℤ pos p.bt;
  rt = pos t -ℤ pos p.at;
}

-- The processes with the times that an assignment gives them
unfoldable pub timed : List ℕ → List Process → List ℕ → List Process
timed load [] cs = []
timed load (p ∷ ps) [] = p ∷ ps
timed load (p ∷ ps) (a ∷ cs) =
    let t = max (get_or load a 0) p.at in started a t p ∷ timed (set load a (t + p.bt)) ps cs

place_all-loads :
    (load : List ℕ) (ps : List Process) (cs : List ℕ)
    → ((place_all load ps cs).0 ≡ loads load (map job ps) cs)
      × (map job (place_all load ps cs).1 ≡ map job ps)
      × ((place_all load ps cs).1 ≡ timed load ps cs)
unfolding place_all loads place timed
place_all-loads load [] cs = (refl, refl, refl)
place_all-loads load (p ∷ ps) [] = (refl, refl, refl)
place_all-loads load (p ∷ ps) (a ∷ cs) =
    let (e, same, times) = place_all-loads (set load a (max (get_or load a 0) p.at + p.bt)) ps cs in
    rw (start_of-max (get_or load a 0) p.at)
      (e, ap (◌∷◌ (job p)) same, ap (◌∷◌ (started a (max (get_or load a 0) p.at) p)) times)

-- The largest of a list, and 0 of none
unfoldable pub maximum : List ℕ → ℕ
maximum [] = 0
maximum (l ∷ ls) = max l (maximum ls)

largest-maximum : (interval : ℕ) (ls : List ℕ) → largest interval ls ≡ max interval (maximum ls)
unfolding largest maximum
largest-maximum interval [] = omega arith
largest-maximum interval (l ∷ ls) =
    ground (arith, largest-maximum (if ltb interval l then l else interval) ls)

interval_of-maximum : (ls : List ℕ) → interval_of ls ≡ maximum ls
unfolding interval_of maximum
interval_of-maximum [] = refl
interval_of-maximum (l ∷ ls) = largest-maximum l ls

-- The interval of an assignment, from the jobs alone: the largest load.
abbrev pub span : (processors : ℕ) → List (ℕ × ℕ × ℕ) → List ℕ → ℕ
span processors js cs = maximum (loads (replicate processors 0) js cs)

pub calculate_metrics-span :
    (processors : ℕ) (ps : List Process) (cs : List ℕ)
    → ((calculate_metrics processors ps cs).0 ≡ span processors (map job ps) cs)
      × (map job (calculate_metrics processors ps cs).1 ≡ map job ps)
unfolding calculate_metrics
calculate_metrics-span processors ps cs =
    let (e, same, times) = place_all-loads (replicate processors 0) ps cs in
    (interval_of-maximum (place_all (replicate processors 0) ps cs).0 ∙ ap maximum e, same)

pub calculate_metrics-timed :
    (processors : ℕ) (ps : List Process) (cs : List ℕ)
    → (calculate_metrics processors ps cs).1 ≡ timed (replicate processors 0) ps cs
unfolding calculate_metrics
calculate_metrics-timed processors ps cs =
    let (e, same, times) = place_all-loads (replicate processors 0) ps cs in times

-- A processor for each of n processes
abbrev pub IsAssignment : (processors n : ℕ) → List ℕ → Type 0
IsAssignment processors n cs = (length cs ≡ n) × All (λ a. a < processors) cs

module _ {processors : ℕ} (some_processor : 0 < processors) where
  get_or_lt : (cs : List ℕ) (i : ℕ) → All (λ a. a < processors) cs → get_or cs i 0 < processors
  get_or_lt [] i h = some_processor
  get_or_lt (c ∷ cs) zero h = h.0
  get_or_lt (c ∷ cs) (suc i) h = get_or_lt cs i h.1

  set_lt :
      (cs : List ℕ) (i c : ℕ)
      → c < processors
      → All (λ a. a < processors) cs
      → All (λ a. a < processors) (set cs i c)
  set_lt [] i c l h = tt
  set_lt (d ∷ cs) zero c l h = (l, h.1)
  set_lt (d ∷ cs) (suc i) c l h = (h.0, set_lt cs i c l h.1)

  pub swap-IsAssignment :
      (i j : ℕ) {n : ℕ} (cs : List ℕ)
      → IsAssignment processors n cs
      → IsAssignment processors n (swap i j cs)
  unfolding swap
  swap-IsAssignment i j cs (l, h) = (
    length-set (set cs i (get_or cs j 0)) j (get_or cs i 0) ∙ length-set cs i (get_or cs j 0) ∙ l,
    set_lt (set cs i (get_or cs j 0)) j (get_or cs i 0) (get_or_lt cs i h)
        (set_lt cs i (get_or cs j 0) (get_or_lt cs j h) h),
  )

  pub round_robin-IsAssignment : (n i : ℕ) → IsAssignment processors n (round_robin n i processors)
  unfolding round_robin
  round_robin-IsAssignment zero i = (refl, tt)
  round_robin-IsAssignment (suc n) i =
      let (l, h) = round_robin-IsAssignment n (suc i) in
      (ap suc l, (omega (arith, some_processor), h))

-- The processes in turn: i goes to processor i modulo their number.
unfoldable pub dealt : (n processors : ℕ) → List ℕ
dealt zero processors = []
dealt (suc n) processors = dealt n processors ++ (n % processors ∷ [])

round_robin-append :
    (n i processors : ℕ)
    → round_robin (suc n) i processors ≡ round_robin n i processors ++ ((n + i) % processors ∷ [])
unfolding round_robin
round_robin-append zero i processors = let e : 0 + i ≡ i = omega arith in rw e refl
round_robin-append (suc n) i processors =
    let e : n + suc i ≡ suc n + i = omega arith in
    ap (◌∷◌ (i % processors)) (
      round_robin-append n (suc i) processors
      ∙ ap (λ m. round_robin n (suc i) processors ++ (m % processors ∷ [])) e)

pub round_robin-dealt : (n processors : ℕ) → round_robin n 0 processors ≡ dealt n processors
unfolding dealt round_robin
round_robin-dealt zero processors = refl
round_robin-dealt (suc n) processors =
    let e : n + 0 ≡ n = omega arith in
    round_robin-append n 0 processors
    ∙ ap (λ m. round_robin n 0 processors ++ (m % processors ∷ [])) e
    ∙ ap (λ cs. cs ++ (n % processors ∷ [])) (round_robin-dealt n processors)
