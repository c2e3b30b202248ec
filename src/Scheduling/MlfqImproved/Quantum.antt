-- ===== src/Scheduling/MlfqImproved/Quantum.antt =====
-- `dynamic_time_quantum` of schedulling_algorithms/sched_algo_mlfqs_improved.c: its bubble sort,
-- and the rank of what it returns.
use system_call_enhancement.Base.{
  ℕ, zero, suc, ◌+◌, ◌-◌, ◌*◌, ◌/◌, ◌≤◌, ◌<◌, leb, ltb, if◌then◌else◌, true, some, List, [], ◌∷◌,
  ◌++◌, length, get_elem?, get_elem?_of_lt, All, ◌≡◌, refl, arith, ap, sym, subst, ◌∙◌, Bool-cases,
  inl, inr,
}
use system_call_enhancement.Scheduling.MlfqImproved.{
  Process, unfinished, bubble_pass, bubble_sort, position, dynamic_time_quantum,
}

abbrev Sorted : List Process → Type 0
Sorted [] = Unit
Sorted (p ∷ ps) = All (λ q. p.remain ≤ q.remain) ps × Sorted ps

-- How many processes need less than t, and how many need at most t.
abbrev pub count_lt : ℕ → List Process → ℕ
count_lt t [] = 0
count_lt t (p ∷ ps) = (if ltb p.remain t then 1 else 0) + count_lt t ps

abbrev pub count_le : ℕ → List Process → ℕ
count_le t [] = 0
count_le t (p ∷ ps) = (if leb p.remain t then 1 else 0) + count_le t ps

-- A pass keeps the processes.
length-bubble_pass : (n : ℕ) (ps : List Process) → length (bubble_pass n ps) ≡ length ps
unfolding bubble_pass
length-bubble_pass zero ps = refl
length-bubble_pass (suc n) [] = refl
length-bubble_pass (suc n) (p ∷ []) = refl
length-bubble_pass (suc n) (p ∷ q ∷ ps) =
    ap suc (length-bubble_pass n ((if ltb q.remain p.remain then p else q) ∷ ps))

count_lt-bubble_pass : (t n : ℕ) (ps : List Process) → count_lt t (bubble_pass n ps) ≡ count_lt t ps
unfolding bubble_pass
count_lt-bubble_pass t zero ps = refl
count_lt-bubble_pass t (suc n) [] = refl
count_lt-bubble_pass t (suc n) (p ∷ []) = refl
count_lt-bubble_pass t (suc n) (p ∷ q ∷ ps) =
    let r = count_lt-bubble_pass t n ((if ltb q.remain p.remain then p else q) ∷ ps) in
    elim (Bool-cases (ltb q.remain p.remain)) [
      | inl e ↦ let r₁ = rw e at r in rw e (omega (arith, r₁))
      | inr e ↦ let r₁ = rw e at r in rw e (omega (arith, r₁))
    ]

count_le-bubble_pass : (t n : ℕ) (ps : List Process) → count_le t (bubble_pass n ps) ≡ count_le t ps
unfolding bubble_pass
count_le-bubble_pass t zero ps = refl
count_le-bubble_pass t (suc n) [] = refl
count_le-bubble_pass t (suc n) (p ∷ []) = refl
count_le-bubble_pass t (suc n) (p ∷ q ∷ ps) =
    let r = count_le-bubble_pass t n ((if ltb q.remain p.remain then p else q) ∷ ps) in
    elim (Bool-cases (ltb q.remain p.remain)) [
      | inl e ↦ let r₁ = rw e at r in rw e (omega (arith, r₁))
      | inr e ↦ let r₁ = rw e at r in rw e (omega (arith, r₁))
    ]

All-bubble_pass {κ} :
    (P : Process → Type κ) (n : ℕ) (ps : List Process) → All P ps → All P (bubble_pass n ps)
unfolding bubble_pass
All-bubble_pass P zero ps h = h
All-bubble_pass P (suc n) [] h = h
All-bubble_pass P (suc n) (p ∷ []) h = h
All-bubble_pass P (suc n) (p ∷ q ∷ ps) (hp, (hq, hs)) =
    let r : (x : Process) → P x → All P (bubble_pass n (x ∷ ps)) =
      λ x hx. All-bubble_pass P n (x ∷ ps) (hx, hs) in
    elim (Bool-cases (ltb q.remain p.remain)) [
      | inl e ↦ rw e ((hq, r p hp))
      | inr e ↦ rw e ((hp, r q hq))
    ]

-- A pass over all of the list moves a greatest process to the end.
record Passed (n : ℕ) (ps : List Process) : Type 0 where
  first : List Process
  greatest : Process
  split : bubble_pass n ps ≡ first ++ (greatest ∷ [])
  size : length first ≡ n
  below : All (λ p. p.remain ≤ greatest.remain) ps

bubble_pass-Passed : (n : ℕ) (ps : List Process) → length ps ≡ suc n → Passed n ps
unfolding bubble_pass
bubble_pass-Passed n [] h = absurd (omega (arith, h))
bubble_pass-Passed zero (p ∷ []) h = record {
  first = [];
  greatest = p;
  split = refl;
  size = refl;
  below = (omega arith, tt);
}
bubble_pass-Passed (suc n) (p ∷ []) h = absurd (omega (arith, h))
bubble_pass-Passed zero (p ∷ q ∷ ps) h = absurd (omega (arith, h))
bubble_pass-Passed (suc n) (p ∷ q ∷ ps) h =
    let swapped = ltb q.remain p.remain in
    let r = bubble_pass-Passed n ((if swapped then p else q) ∷ ps) (omega (arith, h)) in
    record {
      first = (if swapped then q else p) ∷ r.first;
      greatest = r.greatest;
      split = ap (λ xs. (if swapped then q else p) ∷ xs) r.split;
      size = ap suc r.size;
      below = (ground (arith, r.below.0), (ground (arith, r.below.0), r.below.1));
    }

-- A pass that stops before the last process.
bubble_pass-append :
    (n : ℕ) (ps : List Process) (z : Process)
    → n < length ps
    → bubble_pass n (ps ++ (z ∷ [])) ≡ bubble_pass n ps ++ (z ∷ [])
unfolding bubble_pass
bubble_pass-append zero ps z h = refl
bubble_pass-append (suc n) [] z h = absurd (omega (arith, h))
bubble_pass-append (suc n) (p ∷ []) z h = absurd (omega (arith, h))
bubble_pass-append (suc n) (p ∷ q ∷ ps) z h =
    let swapped = ltb q.remain p.remain in
    ap (λ xs. (if swapped then q else p) ∷ xs)
      (bubble_pass-append n ((if swapped then p else q) ∷ ps) z (omega (arith, h)))

bubble_sort-append :
    (n : ℕ) (ps : List Process) (z : Process)
    → n < length ps
    → bubble_sort n (ps ++ (z ∷ [])) ≡ bubble_sort n ps ++ (z ∷ [])
unfolding bubble_sort
bubble_sort-append zero ps z h = refl
bubble_sort-append (suc n) ps z h =
    ap (bubble_sort n) (bubble_pass-append (suc n) ps z h)
    ∙ bubble_sort-append n (bubble_pass (suc n) ps) z
        (omega (arith, h, length-bubble_pass (suc n) ps))

All-bubble_sort {κ} :
    (P : Process → Type κ) (n : ℕ) (ps : List Process) → All P ps → All P (bubble_sort n ps)
unfolding bubble_sort
All-bubble_sort P zero ps h = h
All-bubble_sort P (suc n) ps h =
    All-bubble_sort P n (bubble_pass (suc n) ps) (All-bubble_pass P (suc n) ps h)

length-bubble_sort : (n : ℕ) (ps : List Process) → length (bubble_sort n ps) ≡ length ps
unfolding bubble_sort
length-bubble_sort zero ps = refl
length-bubble_sort (suc n) ps =
    length-bubble_sort n (bubble_pass (suc n) ps) ∙ length-bubble_pass (suc n) ps

count_lt-bubble_sort : (t n : ℕ) (ps : List Process) → count_lt t (bubble_sort n ps) ≡ count_lt t ps
unfolding bubble_sort
count_lt-bubble_sort t zero ps = refl
count_lt-bubble_sort t (suc n) ps =
    count_lt-bubble_sort t n (bubble_pass (suc n) ps) ∙ count_lt-bubble_pass t (suc n) ps

count_le-bubble_sort : (t n : ℕ) (ps : List Process) → count_le t (bubble_sort n ps) ≡ count_le t ps
unfolding bubble_sort
count_le-bubble_sort t zero ps = refl
count_le-bubble_sort t (suc n) ps =
    count_le-bubble_sort t n (bubble_pass (suc n) ps) ∙ count_le-bubble_pass t (suc n) ps

All-first {κ} :
    (P : Process → Type κ) (ps : List Process) (z : Process) → All P (ps ++ (z ∷ [])) → All P ps
All-first P [] z h = tt
All-first P (p ∷ ps) z (h, hs) = (h, All-first P ps z hs)

All-last {κ} :
    (P : Process → Type κ) (ps : List Process) (z : Process)
    → All P ps
    → P z
    → All P (ps ++ (z ∷ []))
All-last P [] z h k = (k, tt)
All-last P (p ∷ ps) z (h, hs) k = (h, All-last P ps z hs k)

Sorted-append :
    (ps : List Process) (z : Process)
    → Sorted ps
    → All (λ p. p.remain ≤ z.remain) ps
    → Sorted (ps ++ (z ∷ []))
Sorted-append [] z s h = (tt, tt)
Sorted-append (p ∷ ps) z (hp, s) (h, hs) =
    (All-last (λ q. p.remain ≤ q.remain) ps z hp h, Sorted-append ps z s hs)

bubble_sort-Sorted : (n : ℕ) (ps : List Process) → length ps ≡ suc n → Sorted (bubble_sort n ps)
unfolding bubble_sort
bubble_sort-Sorted n [] h = absurd (omega (arith, h))
bubble_sort-Sorted zero (p ∷ []) h = (tt, tt)
bubble_sort-Sorted zero (p ∷ q ∷ ps) h = absurd (omega (arith, h))
bubble_sort-Sorted (suc n) (p ∷ ps) h =
    let r = bubble_pass-Passed (suc n) (p ∷ ps) h in
    let below =
      All-first (λ q. q.remain ≤ r.greatest.remain) r.first r.greatest
        (subst (All (λ q. q.remain ≤ r.greatest.remain)) r.split
          (All-bubble_pass (λ q. q.remain ≤ r.greatest.remain) (suc n) (p ∷ ps) r.below)) in
    let sorted = bubble_sort-Sorted n r.first r.size in
    let e =
      ap (bubble_sort n) r.split
      ∙ bubble_sort-append n r.first r.greatest (omega (arith, r.size)) in
    subst Sorted (sym e) (
      Sorted-append (bubble_sort n r.first) r.greatest sorted
        (All-bubble_sort (λ q. q.remain ≤ r.greatest.remain) n r.first below))

-- The rank of what stands at a place of a sorted list.
count_lt-none : (t : ℕ) (ps : List Process) → All (λ q. t ≤ q.remain) ps → count_lt t ps ≡ 0
count_lt-none t [] h = refl
count_lt-none t (p ∷ ps) (h, hs) = ground (arith, h, count_lt-none t ps hs)

All-get_elem? {κ} :
    (P : Process → Type κ) (ps : List Process) (i : ℕ) {p : Process}
    → get_elem? ps i ≡ some p
    → All P ps
    → P p
All-get_elem? P [] i e h = absurd (ground (arith, e))
All-get_elem? P (q ∷ ps) zero {p} e (h, hs) = let same : q ≡ p = cc in subst P same h
All-get_elem? P (q ∷ ps) (suc i) e (h, hs) = All-get_elem? P ps i e hs

rank :
    (ps : List Process) (i : ℕ) {p : Process}
    → Sorted ps
    → get_elem? ps i ≡ some p
    → (count_lt p.remain ps ≤ i) × (i < count_le p.remain ps)
rank [] i s e = absurd (ground (arith, e))
rank (q ∷ ps) zero {p} (h, s) e =
    let here : q ≡ p = cc in
    let same : q.remain ≡ p.remain = ap (λ (x : Process). x.remain) here in
    let none_less = count_lt-none p.remain ps (subst (λ t. All (λ x. t ≤ x.remain) ps) same h) in
    (ground (arith, same, none_less), ground (arith, same))
rank (q ∷ ps) (suc i) {p} (h, s) e =
    let r = rank ps i {p = p} s e in
    let le = All-get_elem? (λ x. q.remain ≤ x.remain) ps i {p = p} e h in
    (ground (arith, r.0), ground (arith, r.1, le))

position_lem : (n : ℕ) → 0 < n → position n ≡ 2 * n / 3
position_lem n h = ground (arith, h)

-- The quantum for what `bubble_sort` leaves.
quantum_of_sorted :
    (head : List Process) (t : ℕ) {p : Process}
    → 0 < length (unfinished head)
    → get_elem?
        (bubble_sort (length (unfinished head) - 1) (unfinished head))
        (position (length (unfinished head)))
      ≡ some p
    → dynamic_time_quantum head t ≡ p.remain
unfolding dynamic_time_quantum
quantum_of_sorted head t h e =
    let some_left : ltb 0 (length (unfinished head)) ≡ true = ground (arith, h) in
    rw (some_left, e) refl

-- When some process is unfinished, `dynamic_time_quantum` takes the remaining time at two thirds of
-- their order: at most 2 * count / 3 of the unfinished processes need less than it, and more than
-- that number need at most as much. So it is the remaining time of one of them.
pub dynamic_time_quantum_lem :
    (head : List Process) (t : ℕ)
    → 0 < length (unfinished head)
    → (count_lt (dynamic_time_quantum head t) (unfinished head) ≤ 2 * length (unfinished head) / 3)
      × (2 * length (unfinished head) / 3
          < count_le (dynamic_time_quantum head t) (unfinished head))
dynamic_time_quantum_lem head t h =
    let ps = unfinished head in
    let n = length ps - 1 in
    let i = position_lem (length ps) h in
    let (p, e) =
      get_elem?_of_lt (bubble_sort n ps) (position (length ps))
        (omega (arith, i, length-bubble_sort n ps, h)) in
    let r =
      rank (bubble_sort n ps) (position (length ps)) {p = p}
        (bubble_sort-Sorted n ps (omega (arith, h))) e in
    let q = quantum_of_sorted head t {p = p} h e in
    rw q (
      omega (arith, r.0, i, count_lt-bubble_sort p.remain n ps),
      omega (arith, r.1, i, count_le-bubble_sort p.remain n ps),
    )
