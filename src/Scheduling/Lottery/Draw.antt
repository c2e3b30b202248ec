-- ===== src/Scheduling/Lottery/Draw.antt =====
-- Who wins the draw of sched_algo_lottery_improved.c.
use system_call_enhancement.Base.{
  ℕ, zero, suc, ◌+◌, ◌-◌, ◌%◌, ◌≤◌, ◌<◌, leb, if◌then◌else◌, true, none, some, List, [], ◌∷◌, ◌≡◌,
  refl, ◌≢◌, arith, get_elem?, take, Bool-cases, inl, inr,
}
use native.Mathlib.Nat.{mod-lt, sub-zero}
use system_call_enhancement.Scheduling.Lottery.{
  Process, eligible, total_from, calculate_total_tickets, draw_from, lottery_draw,
}

-- The tickets of the eligible processes of a list.
unfoldable pub tickets : ℕ → List Process → ℕ
tickets t [] = 0
tickets t (p ∷ ps) = (if eligible t p then p.tt else 0) + tickets t ps

total_from-tickets :
    (t total : ℕ) (ps : List Process) → total_from t total ps ≡ total + tickets t ps
unfolding total_from tickets
total_from-tickets t total [] = omega arith
total_from-tickets t total (p ∷ ps) =
    ground (arith, total_from-tickets t (if eligible t p then total + p.tt else total) ps)

pub calculate_total_tickets-tickets :
    (ps : List Process) (t : ℕ) → calculate_total_tickets ps t ≡ tickets t ps
unfolding calculate_total_tickets
calculate_total_tickets-tickets ps t = rw (total_from-tickets t 0 ps) (omega arith)

-- Process j of the list is eligible, and the ticket `win` is one of its own: the tickets before it
-- are fewer than `win`, and with its own they are at least as many.
pub record Wins (t win : ℕ) (ps : List Process) (j : ℕ) (p : Process) : Type 0 where
  pub at_j : get_elem? ps j ≡ some p
  pub arrived : eligible t p ≡ true
  pub above : tickets t (take j ps) < win
  pub within : win ≤ tickets t (take j ps) + p.tt

-- The loop from `ticket_count` on, as a search for ticket `win - ticket_count` of the rest.
draw_from_finds :
    (t win count i : ℕ) (ps : List Process)
    → count < win
    → win ≤ count + tickets t ps
    → (j : ℕ) × (p : Process) × (draw_from t win count i ps ≡ some (i + j))
      × Wins t (win - count) ps j p
unfolding draw_from tickets
draw_from_finds t win count i [] h l = absurd (omega arith)
draw_from_finds t win count i (p ∷ ps) h l = elim (Bool-cases (eligible t p)) [
  | inl e ↦ elim (Bool-cases (leb win (count + p.tt))) [
    | inl w ↦ (
      0,
      p,
      ground arith,
      record { at_j = refl; arrived = e; above = ground arith; within = ground arith },
    )
    | inr w ↦
        let (j, q, d, x) =
          draw_from_finds t win (count + p.tt) (suc i) ps (ground arith) (ground arith) in
        (
          suc j,
          q,
          ground (arith, d),
          record {
            at_j = x.at_j;
            arrived = x.arrived;
            above = ground (arith, x.above);
            within = ground (arith, x.within);
          },
        )
  ]
  | inr e ↦
      let (j, q, d, x) = draw_from_finds t win count (suc i) ps h (ground arith) in
      (
        suc j,
        q,
        ground (arith, d),
        record {
          at_j = x.at_j;
          arrived = x.arrived;
          above = ground (arith, x.above);
          within = ground (arith, x.within);
        },
      )
]

draw_from_of_Wins :
    (t win count i j : ℕ) (ps : List Process) {p : Process}
    → count < win
    → Wins t (win - count) ps j p
    → draw_from t win count i ps ≡ some (i + j)
unfolding draw_from tickets
draw_from_of_Wins t win count i j [] h x = absurd (ground (arith, x.at_j))
draw_from_of_Wins t win count i zero (p ∷ ps) h x = ground (arith, x.at_j, x.arrived, x.within)
draw_from_of_Wins t win count i (suc j) (p ∷ ps) {p = q} h x = elim (Bool-cases (eligible t p)) [
  | inl e ↦
      let later : Wins t (win - (count + p.tt)) ps j q = record {
        at_j = x.at_j;
        arrived = x.arrived;
        above = ground (arith, x.above);
        within = ground (arith, x.within);
      } in
      ground (
        arith,
        x.above,
        draw_from_of_Wins t win (count + p.tt) (suc i) j ps {p = q} (ground (arith, x.above)) later,
      )
  | inr e ↦
      let later : Wins t (win - count) ps j q = record {
        at_j = x.at_j;
        arrived = x.arrived;
        above = ground (arith, x.above);
        within = ground (arith, x.within);
      } in
      ground (arith, draw_from_of_Wins t win count (suc i) j ps {p = q} h later)
]

-- For the total that `calculate_total_tickets` gives: without tickets the draw has no winner. With
-- tickets it has one, an eligible process among whose tickets `rand() % total_tickets + 1` is, and
-- every process with that ticket among its own is the winner.
pub lottery_draw_lem :
    (ps : List Process) (t roll : ℕ)
    → let total = calculate_total_tickets ps t in
      (total ≡ 0 → lottery_draw ps total t roll ≡ none)
      × (total ≢ 0
          → (j : ℕ) × (p : Process) × (lottery_draw ps total t roll ≡ some j)
            × Wins t (roll % total + 1) ps j p)
      × ((j : ℕ) (p : Process)
          → total ≢ 0
          → Wins t (roll % total + 1) ps j p
          → lottery_draw ps total t roll ≡ some j)
unfolding lottery_draw
lottery_draw_lem ps t roll = (
  λ e. ground arith,
  λ h.
      let (j, p, d, x) =
        draw_from_finds t (roll % total + 1) 0 0 ps (omega arith)
          (omega (arith, calculate_total_tickets-tickets ps t, mod-lt roll (ne h))) in
      (j, p, ground (arith, d), rw sub-zero at x),
  λ j p h x. ground (
    arith,
    draw_from_of_Wins t (roll % total + 1) 0 0 j ps {p = p} (omega arith)
        (rw (sub-zero (roll % total + 1)) x),
  ),
)
  where
    total : ℕ
    total = calculate_total_tickets ps t

    ne : total ≢ 0 → 0 < total
    ne h = omega arith
