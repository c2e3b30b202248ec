-- ===== src/Scheduling/BubbleSort.antt =====
-- `bubble_sort` of schedulling_algorithms/sched_algo_mlfq_existing.c: it exchanges whole nodes,
-- links included, so the nodes stand in a memory indexed by addresses.
pub mod Outcomes
mod Tests
use system_call_enhancement.Base.{
  ℕ, zero, suc, ◌==◌, ltb, if◌then◌else◌, Bool, true, false, Option, none, some,
}
use system_call_enhancement.Scheduling.Mlfq.{Process}

-- `struct process`: the numbers and the link, `none` for NULL.
pub record Node : Type 0 where
  pub proc : Process
  pub link : Option ℕ

abbrev pub Memory : Type 0
Memory = ℕ → Node

-- `*p = n`
abbrev pub store : Memory → ℕ → Node → Memory
store m p n q = if p == q then n else m q

abbrev pub same_link : Option ℕ → Option ℕ → Bool
same_link none none = true
same_link (some p) (some q) = p == q
same_link _ _ = false

-- A run: it returns, dereferences NULL, or has used up its fuel.
pub data Result {ℓ} (A : Type ℓ) : Type ℓ where
  returns : A → Result A
  fault : Result A
  out_of_fuel : Result A

-- A dereference of a pointer that may be NULL.
abbrev pub deref {ℓ} : {A : Type ℓ} → Option ℕ → (ℕ → Result A) → Result A
deref none f = fault
deref (some p) f = f p

-- The body of the `if`, for ptr1 = p whose link is q.
unfoldable pub exchange : Memory → (p q : ℕ) → Result Memory
exchange m p q =
    let temp = m p in
    let m₁ = store m p (m q) in
    deref (m₁ p).link λ r.
      let m₂ = store m₁ r temp in
      deref (m₂ p).link λ s.
        let temp_link = (m₂ s).link in
        let m₃ = store m₂ s (record (m₂ s) { link = (m₂ p).link }) in
        returns (store m₃ p (record (m₃ p) { link = temp_link }))

-- The inner `while` from ptr1 = p: the memory, `swapped` and the last ptr1.
unfoldable pub pass :
    (fuel : ℕ)
    → Memory
    → (p : ℕ) → (lptr : Option ℕ) → (swapped : Bool) → Result (Memory × Bool × ℕ)
pass zero m p lptr swapped = out_of_fuel
pass (suc fuel) m p lptr swapped = elim (same_link (m p).link lptr) [
  | true ↦ returns (m, swapped, p)
  | false ↦ deref (m p).link λ q. elim (ltb (m q).proc.at (m p).proc.at) [
    | true ↦ elim (exchange m p q) [
      | returns m' ↦ deref (m' p).link λ r. pass fuel m' r lptr true
      | fault ↦ fault
      | out_of_fuel ↦ out_of_fuel
    ]
    | false ↦ pass fuel m q lptr swapped
  ]
]

-- The `do` loop, with the fuel of its inner loop first.
unfoldable pub passes : (inner fuel : ℕ) → Memory → (head : ℕ) → (lptr : Option ℕ) → Result Memory
passes inner zero m head lptr = out_of_fuel
passes inner (suc fuel) m head lptr = elim (pass inner m head lptr false) [
  | returns (m', swapped, p) ↦ elim swapped [
    | true ↦ passes inner fuel m' head (some p)
    | false ↦ returns m'
  ]
  | fault ↦ fault
  | out_of_fuel ↦ out_of_fuel
]

-- `bubble_sort(head)`: the memory it leaves; the pointer it returns is `head` itself.
unfoldable pub bubble_sort : (inner fuel : ℕ) → Memory → (head : Option ℕ) → Result Memory
bubble_sort inner fuel m head = deref head λ p. passes inner fuel m p none
