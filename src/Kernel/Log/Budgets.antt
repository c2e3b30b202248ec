-- ===== src/Kernel/Log/Budgets.antt =====
-- Operations between their `begin_op` and their `end_op` of kernel/log.c, each with the calls of
-- `log_write` that are left to it: `begin_op` reserves `MAXOPBLOCKS` of them.
use system_call_enhancement.Base.{
  ℕ, suc, ◌+◌, ◌*◌, ◌≤◌, ◌<◌, All, Bool, true, List, [], ◌∷◌, ◌++◌, length, length-append, some,
  ◌≡◌, arith,
}
use system_call_enhancement.Kernel.Log.{
  State, max_op_blocks, log_size, begin_op, leave_op, finish_commit, log_write,
}

pub record System : Type 0 where
  pub state : State
  pub budgets : List ℕ

-- The calls that are left to all operations
unfoldable pub total : List ℕ → ℕ
total [] = 0
total (m ∷ ms) = m + total ms

-- One critical section of some operation, or the commit behind the last `end_op`.
pub data Step : System → System → Type 0 where
  begin :
      (s : System) (t : State)
      → begin_op s.state ≡ some t
      → Step s (record { state = t; budgets = max_op_blocks ∷ s.budgets })
  write :
      (s : System) (t : State) (before after : List ℕ) (m b : ℕ)
      → s.budgets ≡ before ++ (suc m ∷ after)
      → log_write b s.state ≡ some t
      → Step s (record { state = t; budgets = before ++ (m ∷ after) })
  leave :
      (s : System) (t : State) (before after : List ℕ) (m : ℕ) (do_commit : Bool)
      → s.budgets ≡ before ++ (m ∷ after)
      → leave_op s.state ≡ some (do_commit, t)
      → Step s (record { state = t; budgets = before ++ after })
  finish :
      (s : System)
      → s.state.log.committing ≡ true
      → Step s (record { state = finish_commit s.state; budgets = s.budgets })

pub data Reach (s : System) : System → Type 0 where
  here : Reach s s
  next : {t u : System} → Reach s t → Step t u → Reach s u

pub record Inv (s : System) : Type 0 where
  pub counted : s.state.log.outstanding ≡ length s.budgets
  pub idle : s.state.log.committing ≡ true → s.state.log.outstanding ≡ 0
  pub each : All (λ m. m ≤ max_op_blocks) s.budgets
  pub roomy : log_size < s.state.log.size
  pub fits : length s.state.log.blocks + total s.budgets ≤ log_size

-- The reservation of a budget in the middle
total-append : (xs ys : List ℕ) → total (xs ++ ys) ≡ total xs + total ys
unfolding total
total-append [] ys = omega arith
total-append (x ∷ xs) ys = omega (arith, total-append xs ys)

pub total-middle : (xs ys : List ℕ) (m : ℕ) → total (xs ++ (m ∷ ys)) ≡ m + total (xs ++ ys)
unfolding total
total-middle xs ys m = omega (arith, total-append xs (m ∷ ys), total-append xs ys)

pub length-middle : (xs ys : List ℕ) (m : ℕ) → length (xs ++ (m ∷ ys)) ≡ suc (length (xs ++ ys))
length-middle xs ys m = omega (arith, length-append xs (m ∷ ys), length-append xs ys)

pub total-le :
    (xs : List ℕ) → All (λ m. m ≤ max_op_blocks) xs → total xs ≤ length xs * max_op_blocks
unfolding total
total-le [] h = omega arith
total-le (x ∷ xs) (h, hs) = omega (arith, h, total-le xs hs)

pub All-middle {κ} :
    (P : ℕ → Type κ) (xs ys : List ℕ) (m : ℕ) → All P (xs ++ (m ∷ ys)) → P m × All P (xs ++ ys)
All-middle P [] ys m h = h
All-middle P (x ∷ xs) ys m (h, hs) = let r = All-middle P xs ys m hs in (r.0, (h, r.1))

pub All-insert {κ} :
    (P : ℕ → Type κ) (xs ys : List ℕ) (m : ℕ) → P m → All P (xs ++ ys) → All P (xs ++ (m ∷ ys))
All-insert P [] ys m h hs = (h, hs)
All-insert P (x ∷ xs) ys m h (k, ks) = (k, All-insert P xs ys m h ks)
