-- ===== src/Kernel/Sysproc/Calls.antt =====
-- The results of `sys_setpriority` and `sys_cpuutilization` of kernel/sysproc.c.
use system_call_enhancement.Base.{
  ℕ, zero, suc, ◌+◌, ◌-◌, ◌*◌, ◌/◌, ◌%◌, ◌^◌, ◌≤◌, ◌<◌, ◌==◌, if◌then◌else◌, true, false, ◌||◌,
  Option, none, some, List, [], ◌∷◌, ◌≡◌, ◌≢◌, refl, arith, get_elem?, Bool-cases, Option-cases,
  inl, inr, ap, ap₂, ◌∙◌, set,
}
use system_call_enhancement.Base.Int.{ℤ, pos, negsuc, ltb_ℤ, eqb_ℤ}
use system_call_enhancement.Kernel.Proc.{Proc, Kernel}
use system_call_enhancement.Kernel.Sysproc.{
  set_priority, sys_setpriority, add_times, sys_cpuutilization,
}

-- The first process with the pid, by its index.
unfoldable pub index_of_pid : ℤ → List Proc → Option ℕ
index_of_pid pid [] = none
index_of_pid pid (p ∷ ps) = if eqb_ℤ p.pid pid then some 0 else shift (index_of_pid pid ps)
  where
    shift : Option ℕ → Option ℕ
    shift none = none
    shift (some i) = some (suc i)

-- The sums over the table.
unfoldable pub busy : List Proc → ℕ
busy [] = 0
busy (p ∷ ps) = p.total_time + busy ps

unfoldable pub idle : List Proc → ℕ
idle [] = 0
idle (p ∷ ps) = p.idle_time + idle ps

add_times_lem :
    (t i : ℕ) (ps : List Proc)
    → t + busy ps < 2 ^ 64
    → i + idle ps < 2 ^ 64
    → add_times t i ps ≡ (t + busy ps, i + idle ps)
unfolding add_times busy idle
add_times_lem t i [] h g =
    let left : t ≡ t + 0 = omega arith in
    let right : i ≡ i + 0 = omega arith in ap₂ (λ a b. (a, b)) left right
add_times_lem t i (p ∷ ps) h g =
    let left : (t + p.total_time) % 2 ^ 64 ≡ t + p.total_time = omega arith in
    let right : (i + p.idle_time) % 2 ^ 64 ≡ i + p.idle_time = omega arith in
    let left' : t + p.total_time + busy ps ≡ t + (p.total_time + busy ps) = omega arith in
    let right' : i + p.idle_time + idle ps ≡ i + (p.idle_time + idle ps) = omega arith in
    rw
      (
        left,
        right,
        add_times_lem (t + p.total_time) (i + p.idle_time) ps (omega arith) (omega arith),
      )
      (ap₂ (λ a b. (a, b)) left' right')

without_wrap :
    (b i : ℕ) → b * 100 < 2 ^ 64 → i ≤ b → (b + 2 ^ 64 - i) % 2 ^ 64 * 100 % 2 ^ 64 ≡ (b - i) * 100
without_wrap b i h le =
    let e : (b + 2 ^ 64 - i) % 2 ^ 64 ≡ b - i = omega arith in rw e (omega arith)

add_times_table :
    (ps : List Proc)
    → busy ps * 100 < 2 ^ 64
    → idle ps ≤ busy ps
    → add_times 0 0 ps ≡ (busy ps, idle ps)
add_times_table ps h le =
    let left : 0 + busy ps ≡ busy ps = omega arith in
    let right : 0 + idle ps ≡ idle ps = omega arith in
    add_times_lem 0 0 ps (omega arith) (omega arith) ∙ ap₂ (λ a b. (a, b)) left right

-- If neither sum over the table overflows 64 bits, nor a hundred times the busy one, and no more
-- time is idle than there is in total, then `sys_cpuutilization` is the share of the total time
-- that was not idle, in per cent rounded down; it is 0 if no time has been counted.
pub sys_cpuutilization_lem :
    {W : Type 0} (k : Kernel W)
    → busy k.table * 100 < 2 ^ 64
    → idle k.table ≤ busy k.table
    → (busy k.table ≡ 0 → sys_cpuutilization k ≡ 0)
      × (busy k.table ≢ 0
          → sys_cpuutilization k ≡ (busy k.table - idle k.table) * 100 / busy k.table)
unfolding sys_cpuutilization
sys_cpuutilization_lem k h le =
    let sums = add_times_table k.table h le in
    (
      λ e. rw (sums, e),
      λ ne.
          let some_time : (busy k.table == 0) ≡ false = ground arith in
          rw (sums, some_time, without_wrap (busy k.table) (idle k.table) h le),
    )

set_priority-none :
    (pid priority : ℤ) (ps : List Proc)
    → index_of_pid pid ps ≡ none
    → set_priority pid priority ps ≡ (negsuc 0, ps)
unfolding set_priority index_of_pid
set_priority-none pid priority [] e = refl
set_priority-none pid priority (p ∷ ps) e = elim (Bool-cases (eqb_ℤ p.pid pid)) [
  | inl here ↦ absurd (ground (arith, e, here))
  | inr there ↦ elim (Option-cases (index_of_pid pid ps)) [
    | inl later ↦ rw (there, set_priority-none pid priority ps later)
    | inr (i, later) ↦ absurd (ground (arith, e, there, later))
  ]
]

set_priority-some :
    (pid priority : ℤ) (ps : List Proc) (i : ℕ) (p : Proc)
    → index_of_pid pid ps ≡ some i
    → get_elem? ps i ≡ some p
    → set_priority pid priority ps ≡ (pos 0, set ps i (record p { priority = priority }))
unfolding set_priority index_of_pid
set_priority-some pid priority [] i p e q = absurd (ground (arith, e))
set_priority-some pid priority (r ∷ ps) zero p e q = elim (Bool-cases (eqb_ℤ r.pid pid)) [
  | inl here ↦
      let same : r ≡ p = cc in
      rw here (ap (λ x. (pos 0, record x { priority = priority } ∷ ps)) same)
  | inr there ↦ elim (Option-cases (index_of_pid pid ps)) [
    | inl later ↦ absurd (ground (arith, e, there, later))
    | inr (j, later) ↦ absurd (ground (arith, e, there, later))
  ]
]
set_priority-some pid priority (r ∷ ps) (suc i) p e q = elim (Bool-cases (eqb_ℤ r.pid pid)) [
  | inl here ↦ absurd (ground (arith, e, here))
  | inr there ↦ elim (Option-cases (index_of_pid pid ps)) [
    | inl later ↦ absurd (ground (arith, e, there, later))
    | inr (j, later) ↦
        let at_i : index_of_pid pid ps ≡ some i = ground (arith, e, there, later) in
        rw (there, set_priority-some pid priority ps i p at_i q)
  ]
]

-- `sys_setpriority` with a negative argument, or with a pid that no process has, returns -1 and
-- changes nothing; otherwise it returns 0 and stores the priority in the first process that has
-- the pid, and changes nothing else.
pub sys_setpriority_lem :
    {W : Type 0} (pid priority : ℤ) (k : Kernel W)
    → ((ltb_ℤ pid (pos 0) || ltb_ℤ priority (pos 0)) ≡ true
        → sys_setpriority pid priority k ≡ (negsuc 0, k))
      × (index_of_pid pid k.table ≡ none → sys_setpriority pid priority k ≡ (negsuc 0, k))
      × ((i : ℕ) (p : Proc)
          → (ltb_ℤ pid (pos 0) || ltb_ℤ priority (pos 0)) ≡ false
          → index_of_pid pid k.table ≡ some i
          → get_elem? k.table i ≡ some p
          → sys_setpriority pid priority k
            ≡ (pos 0, record k { table = set k.table i (record p { priority = priority }) }))
unfolding sys_setpriority
sys_setpriority_lem pid priority k = (
  λ bad. rw bad,
  λ e. elim (Bool-cases (ltb_ℤ pid (pos 0) || ltb_ℤ priority (pos 0))) [
    | inl bad ↦ rw bad
    | inr fine ↦ rw (fine, set_priority-none pid priority k.table e)
  ],
  λ i p fine e q. rw (fine, set_priority-some pid priority k.table i p e q),
)
