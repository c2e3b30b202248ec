-- ===== src/Scheduling/Lottery/Ends.antt =====
-- `main` of sched_algo_lottery_improved.c comes to its end, and what it then prints.
use mathlib.Core.Option
use native.Mathlib.Decide.{ℕ_discrete}
use system_call_enhancement.Base.{
  ℕ, zero, suc, ◌+◌, ◌%◌, ◌≤◌, ◌<◌, ltb, ltb→lt, true, Option, none, some, List, [], ◌∷◌, ◌≡◌, refl,
  ap, sym, map, ◌∙◌, ◌≢◌, arith, Bool-cases, inl, inr, All, length,
}
use system_call_enhancement.Base.Int.{pos, ◌-ℤ◌, ◌≤ℤ◌, -ℤ_parts}
use system_call_enhancement.Scheduling.Lottery.{
  Process, Run, calculate_total_tickets, lottery_draw, modify, run_process, run_selected,
  play_round, run_rounds, assign_from, assign_processors, with_metrics, new_process,
  calculate_metrics, main,
}
use system_call_enhancement.Scheduling.Lottery.Draw.{
  Wins, calculate_total_tickets-tickets, lottery_draw_lem,
}
use system_call_enhancement.Scheduling.Lottery.Rounds.{
  IsDone, IsFine, active, work, ArriveBy, job, All-later, modify-Advances, tickets-zero, IsGood,
  measure,
}

-- A round keeps the invariant and leaves less to do.
record Progress (jobs : List (ℕ × ℕ × ℕ × ℕ)) (b : ℕ) (s t : Run) : Type 0 where
  good : IsGood jobs b t
  shrinks : measure b t < measure b s
  clock : t.current_time ≡ s.current_time + 1

ArriveBy-job :
    (b : ℕ) (ps qs : List Process) → map job ps ≡ map job qs → ArriveBy b qs → ArriveBy b ps
ArriveBy-job b [] qs e a = tt
ArriveBy-job b (p ∷ ps) [] e a = absurd (cc)
ArriveBy-job b (p ∷ ps) (q ∷ qs) e a =
    ((let same : p.at ≡ q.at = cc in omega (arith, same, a.0)), ArriveBy-job b ps qs (cc) a.1)

module _ {jobs : List (ℕ × ℕ × ℕ × ℕ)} {b : ℕ} (s : Run) (g : IsGood jobs b s)
    (more : 0 < s.active_processes) where
  idle :
      calculate_total_tickets s.processes s.current_time ≡ 0
      → Progress jobs b s (record s { current_time = s.current_time + 1 })
  idle z = record {
    good = record {
      fine = All-later s.current_time s.processes g.fine;
      arrive = g.arrive;
      same = g.same;
      counted = g.counted;
    };
    shrinks = omega (
      arith,
      tickets-zero s.current_time b s.processes g.fine g.arrive
          (sym (calculate_total_tickets-tickets s.processes s.current_time) ∙ z)
          (omega (arith, g.counted)),
    );
    clock = refl;
  }

  busy :
      (win i : ℕ) (p : Process)
      → Wins s.current_time win s.processes i p
      → Progress jobs b s (run_selected i s)
  unfolding run_selected
  busy win i p x =
      let a = modify-Advances s.current_time i s.processes {p = p} x.at_j x.arrived g.fine in
      record {
        good = record {
          fine = a.fine;
          arrive =
              ArriveBy-job b (modify s.processes i (run_process s.current_time)) s.processes a.jobs
                g.arrive;
          same = a.jobs ∙ g.same;
          counted = ground (arith, a.fewer, g.counted, x.at_j);
        };
        shrinks = omega (arith, a.less);
        clock = refl;
      }

  play_round-Progress : (roll : ℕ) → Progress jobs b s (play_round roll s)
  unfolding play_round
  play_round-Progress roll = elim (ℕ_discrete total 0) [
    | yes z ↦ rw (draw.0 z, play_round) (idle z)
    | no h ↦ let (i, p, d, x) = draw.1 h in rw (d, play_round) (busy (roll % total + 1) i p x)
  ]
    where
      total : ℕ
      total = calculate_total_tickets s.processes s.current_time

      draw :
          (total ≡ 0 → lottery_draw s.processes total s.current_time roll ≡ none)
          × (total ≢ 0
              → (j : ℕ) × (p : Process) × (lottery_draw s.processes total s.current_time roll
                  ≡ some j)
                × Wins s.current_time (roll % total + 1) s.processes j p)
      draw = let l = lottery_draw_lem s.processes s.current_time roll in (l.0, l.1)

-- What the loop returns when it ends.
pub record Ended (jobs : List (ℕ × ℕ × ℕ × ℕ)) (b late : ℕ) (out : Option Run) : Type 0 where
  pub final : Run
  pub returned : out ≡ some final
  pub good : IsGood jobs b final
  pub none_active : final.active_processes ≡ 0
  pub by_then : final.current_time ≤ late

run_rounds-Ended :
    {jobs : List (ℕ × ℕ × ℕ × ℕ)} {b late : ℕ} (rand : ℕ → ℕ) (fuel : ℕ) (s : Run)
    → measure b s < fuel
    → s.current_time + measure b s ≤ late
    → IsGood jobs b s
    → Ended jobs b late (run_rounds fuel rand s)
unfolding run_rounds
run_rounds-Ended rand zero s m l g = absurd (omega arith)
run_rounds-Ended rand (suc fuel) s m l g = elim (Bool-cases (ltb 0 s.active_processes)) [
  | inl more ↦
      let next = play_round-Progress s g (ltb→lt 0 s.active_processes more) (rand s.current_time) in
      rw more (
        run_rounds-Ended rand fuel (play_round (rand s.current_time) s)
          (omega (arith, next.shrinks)) (omega (arith, next.shrinks, next.clock)) next.good)
  | inr stop ↦ rw stop (record {
    final = s;
    returned = refl;
    good = g;
    none_active = ground arith;
    by_then = omega arith;
  })
]

-- A list as `create_process` makes it for positive tickets and bursts, with arrivals up to b.
abbrev pub IsFresh : ℕ → List Process → Type 0
IsFresh b [] = Unit
IsFresh b (p ∷ ps) =
    ((v : ℕ × ℕ × ℕ × ℕ) × (p ≡ new_process v.0 v.1 v.2 v.3) × (0 < v.1) × (v.2 ≤ b) × (0 < v.3))
    × IsFresh b ps

-- The sum of the bursts
unfoldable pub total_burst : List Process → ℕ
total_burst [] = 0
total_burst (p ∷ ps) = p.bt + total_burst ps

record Started (b : ℕ) (ps qs : List Process) : Type 0 where
  fine : All (IsFine 0) qs
  arrive : ArriveBy b qs
  same : map job qs ≡ map job ps
  counted : length ps ≡ active qs
  worked : work qs ≡ total_burst ps

assign_from-Started :
    (b i processors : ℕ) (ps : List Process)
    → IsFresh b ps
    → Started b ps (assign_from i processors ps)
unfolding assign_from active work total_burst
assign_from-Started b i processors [] f = record {
  fine = tt;
  arrive = tt;
  same = refl;
  counted = refl;
  worked = refl;
}
assign_from-Started b i processors (p ∷ ps) ((v, e, t, a, u), f) =
    let rest = assign_from-Started b (suc i) processors ps f in
    rw e (record {
      fine = (
        (t, (λ h. cc), (λ h. record { left = omega arith; burst = omega arith; since = inl refl })),
        rest.fine,
      );
      arrive = (a, rest.arrive);
      same = ap (λ js. job (new_process v.0 v.1 v.2 v.3) ∷ js) rest.same;
      counted = omega (arith, rest.counted);
      worked = omega (arith, rest.worked);
    })

-- What the program prints of a process once it is completed, at time t at the latest: it ran for
-- its burst after it arrived, the turnaround is the time since it arrived, and the waiting time is
-- the turnaround without the burst, and is not negative.
pub record IsPrinted (t : ℕ) (p : Process) : Type 0 where
  pub done : p.completed ≡ true
  pub nothing_left : p.remaining_time ≡ pos 0
  pub late_enough : pos (p.at + p.bt) ≤ℤ p.ct
  pub soon_enough : p.ct ≤ℤ pos t
  pub turnaround : p.tat ≡ p.ct -ℤ pos p.at
  pub waiting : p.wt ≡ p.tat -ℤ pos p.bt
  pub waiting_nonneg : pos 0 ≤ℤ p.wt

with_metrics-IsPrinted :
    (t : ℕ) (p : Process) → p.completed ≡ true → IsFine t p → IsPrinted t (with_metrics p)
with_metrics-IsPrinted t p c f =
    let d : IsDone t p = f.1 c in
    record {
      done = c;
      nothing_left = d.nothing_left;
      late_enough = d.spent;
      soon_enough = d.past;
      turnaround = refl;
      waiting = refl;
      waiting_nonneg =
          omega (arith, -ℤ_parts p.ct (pos p.at), -ℤ_parts (p.ct -ℤ pos p.at) (pos p.bt), d.spent);
    }

calculate_metrics-IsPrinted :
    (t : ℕ) (ps : List Process)
    → active ps ≡ 0
    → All (IsFine t) ps
    → All (IsPrinted t) (calculate_metrics ps) × (map job (calculate_metrics ps) ≡ map job ps)
unfolding calculate_metrics active
calculate_metrics-IsPrinted t [] e f = (tt, refl)
calculate_metrics-IsPrinted t (p ∷ ps) e f =
    let (rest, same) = calculate_metrics-IsPrinted t ps (ground arith) f.1 in
    ((with_metrics-IsPrinted t p (ground arith) f.0, rest), ap (◌∷◌ (job p)) same)

IsPrinted-le : {t u : ℕ} → t ≤ u → (ps : List Process) → All (IsPrinted t) ps → All (IsPrinted u) ps
IsPrinted-le le [] f = tt
IsPrinted-le le (p ∷ ps) (h, f) = (
  record {
    done = h.done;
    nothing_left = h.nothing_left;
    late_enough = h.late_enough;
    soon_enough = omega (arith, h.soon_enough);
    turnaround = h.turnaround;
    waiting = h.waiting;
    waiting_nonneg = h.waiting_nonneg;
  },
  IsPrinted-le le ps f,
)

-- If there is a processor and every process has a ticket and a positive burst, and arrives by time b, then `main` ends
-- whatever `rand()` returns, within b rounds more than the bursts add up to: it returns the
-- processes in their order with pid, tickets, arrival and burst unchanged, each completed, with its
-- completion no earlier than arrival plus burst and no later than b plus the sum of the bursts,
-- and with a waiting time that is not negative.
pub main_ends :
    (fuel : ℕ) (rand : ℕ → ℕ) (processors b : ℕ) (head : List Process)
    → 0 < processors
    → IsFresh b head
    → b + total_burst head < fuel
    → (out : List Process) × (main fuel rand processors head ≡ some out)
      × (map job out ≡ map job head)
      × All (IsPrinted (b + total_burst head)) out
unfolding main assign_processors
main_ends fuel rand processors b head some_processor fresh enough =
    let st = assign_from-Started b 0 processors head fresh in
    let e =
      run_rounds-Ended {jobs = map job head} {b = b} {late = b + total_burst head} rand fuel
        (record {
          processes = assign_from 0 processors head;
          active_processes = length head;
          round = 1;
          current_time = 0;
        })
        (omega (arith, st.worked, enough)) (omega (arith, st.worked))
        (record { fine = st.fine; arrive = st.arrive; same = st.same; counted = st.counted }) in
    let (printed, same) =
      calculate_metrics-IsPrinted e.final.current_time e.final.processes
        (omega (arith, e.good.counted, e.none_active)) e.good.fine in
    (
      calculate_metrics e.final.processes,
      ap (Option.map (λ s. calculate_metrics s.processes)) e.returned,
      same ∙ e.good.same,
      IsPrinted-le e.by_then (calculate_metrics e.final.processes) printed,
    )
