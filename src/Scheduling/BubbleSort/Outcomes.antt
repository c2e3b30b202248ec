-- ===== src/Scheduling/BubbleSort/Outcomes.antt =====
-- When `bubble_sort` of sched_algo_mlfq_existing.c returns: on an ascending list, and on no other.
use system_call_enhancement.Base.{
  ℕ, zero, suc, ◌≤◌, ◌<◌, Bool, true, false, none, some, ◌≡◌, ◌≢◌, refl, ◌⊎◌, inl, inr, arith,
}
use system_call_enhancement.Scheduling.BubbleSort.{
  Memory, store, returns, fault, out_of_fuel, exchange, pass, passes, bubble_sort,
}

-- From node p the list has n links, and the arrival times ascend.
pub data IsAscending (m : Memory) : ℕ → ℕ → Type 0 where
  last : {p : ℕ} → (m p).link ≡ none → IsAscending m zero p
  link :
      {n p q : ℕ}
      → (m p).link ≡ some q
      → (m p).proc.at ≤ (m q).proc.at
      → IsAscending m n q
      → IsAscending m (suc n) p

-- Some neighbours of the list from p are out of order: x arrives after its successor y; y is the
-- last node, or a third node follows.
pub data Inverts (m : Memory) : ℕ → Type 0 where
  at_end :
      {x y : ℕ}
      → (m x).link ≡ some y
      → (m y).proc.at < (m x).proc.at
      → x ≢ y
      → (m y).link ≡ none
      → Inverts m x
  before :
      {x y z : ℕ}
      → (m x).link ≡ some y
      → (m y).proc.at < (m x).proc.at
      → x ≢ y
      → x ≢ z
      → y ≢ z
      → (m y).link ≡ some z
      → Inverts m x
  later :
      {x y : ℕ} → (m x).link ≡ some y → (m x).proc.at ≤ (m y).proc.at → Inverts m y → Inverts m x

-- A node that is its own successor holds the loop for ever.
pass_loop :
    (fuel : ℕ) (m : Memory) (z : ℕ) (swapped : Bool)
    → (m z).link ≡ some z
    → pass fuel m z none swapped ≡ out_of_fuel
unfolding pass
pass_loop zero m z swapped e = refl
pass_loop (suc fuel) m z swapped e = ground (arith, pass_loop fuel m z swapped e)

-- The memory that `exchange` leaves: z, the third node, is its own successor.
record Tangled (m m' : Memory) (x y z : ℕ) : Type 0 where
  first : (m' x).link ≡ some y
  second : (m' y).link ≡ some z
  third : (m' z).link ≡ some z
  kept : (m' y).proc.at ≡ (m y).proc.at
  moved : (m' z).proc.at ≡ (m x).proc.at

exchange-Tangled :
    (m : Memory) (x y z : ℕ)
    → (m x).link ≡ some y
    → x ≢ y
    → x ≢ z
    → y ≢ z
    → (m y).link ≡ some z
    → (m' : Memory) × (exchange m x y ≡ returns m') × Tangled m m' x y z
unfolding exchange
exchange-Tangled m x y z e xy xz yz f =
    let m₂ = store (store m x (m y)) z (m x) in
    let m₃ = store m₂ z (record (m₂ z) { link = some z }) in
    (
      store m₃ x (record (m₃ x) { link = some y }),
      ground arith,
      record {
        first = ground arith;
        second = ground arith;
        third = ground arith;
        kept = ground arith;
        moved = ground arith;
      },
    )

exchange_faults :
    (m : Memory) (x y : ℕ)
    → (m x).link ≡ some y
    → x ≢ y
    → (m y).link ≡ none
    → exchange m x y ≡ fault
unfolding exchange
exchange_faults m x y e xy f = ground arith

pass-Tangled :
    (fuel : ℕ) {m m' : Memory} {x y z : ℕ}
    → (m y).proc.at < (m x).proc.at
    → Tangled m m' x y z
    → pass fuel m' y none true ≡ out_of_fuel
unfolding pass
pass-Tangled zero h t = refl
pass-Tangled (suc fuel) {m' = m'} {z = z} h t =
    ground (arith, t.second, t.kept, t.moved, pass_loop fuel m' z true (t.third))

pass-Inverts :
    (fuel : ℕ) (m : Memory) {p : ℕ} (swapped : Bool)
    → Inverts m p
    → (pass fuel m p none swapped ≡ fault) ⊎ (pass fuel m p none swapped ≡ out_of_fuel)
unfolding pass
pass-Inverts zero m swapped i = inr refl
pass-Inverts (suc fuel) m swapped (at_end e h xy f) =
    inl (ground (arith, exchange_faults m _ _ e xy f))
pass-Inverts (suc fuel) m swapped (before e h xy xz yz f) =
    let (m', e', t) = exchange-Tangled m _ _ _ e xy xz yz f in
    inr (ground (arith, e', t.first, pass-Tangled fuel h t))
pass-Inverts (suc fuel) m swapped (later e h i) = elim (pass-Inverts fuel m swapped i) [
  | inl r ↦ inl (ground (arith, r))
  | inr r ↦ inr (ground (arith, r))
]

pass-IsAscending :
    (fuel : ℕ) (m : Memory) {n p : ℕ}
    → IsAscending m n p
    → n < fuel
    → (q : ℕ) × (pass fuel m p none false ≡ returns (m, false, q))
unfolding pass
pass-IsAscending zero m a h = absurd (omega arith)
pass-IsAscending (suc fuel) m {p = p} (last e) h = (p, ground arith)
pass-IsAscending (suc fuel) m (link e le a) h =
    let (q, r) = pass-IsAscending fuel m a (omega arith) in (q, ground arith)

passes-IsAscending :
    (m : Memory) (head n inner fuel : ℕ)
    → IsAscending m n head
    → n < inner
    → 0 < fuel
    → passes inner fuel m head none ≡ returns m
unfolding passes
passes-IsAscending m head n inner zero a h k = absurd (omega arith)
passes-IsAscending m head n inner (suc fuel) a h k =
    let (q, r) = pass-IsAscending inner m a h in ground (arith, r)

passes-Inverts :
    (m m' : Memory) (head inner fuel : ℕ)
    → Inverts m head
    → passes inner fuel m head none ≢ returns m'
unfolding passes
passes-Inverts m m' head inner zero i e = cc
passes-Inverts m m' head inner (suc fuel) i e = elim (pass-Inverts inner m false i) [
  | inl r ↦ ground (arith, e, r)
  | inr r ↦ ground (arith, e, r)
]

-- `bubble_sort` returns on an ascending list, with the list unchanged, as soon as its loop may take
-- a step for each node. On a list that has neighbours out of order it never returns: whatever the
-- number of steps, it has dereferenced NULL or is still in its loop.
pub bubble_sort_outcomes :
    (m : Memory) (head : ℕ)
    → ((n inner fuel : ℕ)
        → IsAscending m n head
        → n < inner
        → 0 < fuel
        → bubble_sort inner fuel m (some head) ≡ returns m)
      × (Inverts m head
          → (inner fuel : ℕ) (m' : Memory) → bubble_sort inner fuel m (some head) ≢ returns m')
unfolding bubble_sort
bubble_sort_outcomes m head = (
  λ n inner fuel a h k. passes-IsAscending m head n inner fuel a h k,
  λ i inner fuel m'. passes-Inverts m m' head inner fuel i,
)
