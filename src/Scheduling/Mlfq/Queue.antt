-- ===== src/Scheduling/Mlfq/Queue.antt =====
-- The array queues of sched_algo_mlfq_existing.c behave as FIFO lists until `rear` meets the end.
use system_call_enhancement.Base.{
  ℕ, zero, suc, ◌+◌, ◌-◌, ◌≤◌, ◌<◌, true, false, Option, none, some, List, [], ◌∷◌, ◌++◌, get_or,
  set, take, drop, length, length-set, ◌≡◌, refl, sym, subst, ◌≢◌, ap, arith, inl, inr, ◌∙◌, ◌⊎◌,
}
use native.Mathlib.Decide.{ℕ_discrete}
use system_call_enhancement.Scheduling.Mlfq.{max_len, Level, enqueue, dequeue}

-- `front` and `rear` are both -1, or delimit a part of the row.
abbrev pub IsRange : Option ℕ → Option ℕ → Type 0
IsRange none none = Unit
IsRange (some f) (some r) = (f ≤ r) × (r < max_len)
IsRange _ _ = ⊥

pub record IsValid (q : Level) : Type 0 where
  pub cells_len : length q.cells ≡ max_len
  pub range : IsRange q.front q.rear

abbrev pub between : List ℕ → Option ℕ → Option ℕ → List ℕ
between cells (some f) (some r) = take (suc r - f) (drop f cells)
between cells _ _ = []

-- The pids that wait, in their order.
abbrev pub contents : Level → List ℕ
contents q = between q.cells q.front q.rear

pub take-drop-set :
    (xs : List ℕ) (f n i x : ℕ)
    → i ≡ f + n
    → i < length xs
    → take (suc n) (drop f (set xs i x)) ≡ take n (drop f xs) ++ (x ∷ [])
take-drop-set [] f n i x e h = absurd (omega arith)
take-drop-set (y ∷ xs) zero zero zero x e h = refl
take-drop-set (y ∷ xs) zero (suc n) (suc i) x e h =
    ap (◌∷◌ y) (take-drop-set xs zero n i x (omega arith) (omega arith))
take-drop-set (y ∷ xs) (suc f) n (suc i) x e h =
    take-drop-set xs f n i x (omega arith) (omega arith)
take-drop-set (y ∷ xs) _ _ _ x e h = absurd (omega arith)

pub take-drop-cons :
    (xs : List ℕ) (f g n : ℕ)
    → g ≡ f + 1
    → f < length xs
    → take (suc n) (drop f xs) ≡ get_or xs f 0 ∷ take n (drop g xs)
take-drop-cons [] f g n e h = absurd (omega arith)
take-drop-cons (y ∷ xs) zero (suc zero) n e h = refl
take-drop-cons (y ∷ xs) (suc f) (suc g) n e h = take-drop-cons xs f g n (omega arith) (omega arith)
take-drop-cons (y ∷ xs) _ _ n e h = absurd (omega arith)

-- A level with the given fields
abbrev pub level : List ℕ → Option ℕ → Option ℕ → Level
level cells front rear = record { cells = cells; front = front; rear = rear }

-- What `enqueue` owes for a valid level.
record Enqueued (q : Level) (pid : ℕ) : Type 0 where
  valid : IsValid (enqueue q pid).1
  full : q.rear ≡ some (max_len - 1) → enqueue q pid ≡ (true, q)
  room :
      q.rear ≢ some (max_len - 1)
      → ((enqueue q pid).0 ≡ false) × (contents (enqueue q pid).1 ≡ contents q ++ (pid ∷ []))

enqueue-Enqueued :
    (cells : List ℕ) (front rear : Option ℕ) (pid : ℕ)
    → length cells ≡ max_len
    → IsRange front rear
    → Enqueued (level cells front rear) pid
unfolding enqueue
enqueue-Enqueued cells none none pid l v = record {
  valid = record { cells_len = length-set cells 0 pid ∙ l; range = omega arith };
  full = λ e. absurd (cc);
  room = λ h. (refl, take-drop-set cells 0 0 0 pid refl (omega arith));
}
enqueue-Enqueued cells (some f) (some r) pid l v = elim (ℕ_discrete r 99) [
  | yes last ↦
      let e : enqueue (level cells (some f) (some r)) pid ≡ (true, level cells (some f) (some r)) =
        ground arith in
      record {
        valid = rw e (record { cells_len = l; range = v });
        full = λ _. e;
        room = λ h. absurd (h (ap some last));
      }
  | no h ↦
      let after = level (set cells (r + 1) pid) (some f) (some (r + 1)) in
      let e : enqueue (level cells (some f) (some r)) pid ≡ (false, after) = ground arith in
      let size : suc (r + 1) - f ≡ suc (suc r - f) = omega arith in
      record {
        valid = rw e (record { cells_len = length-set cells (r + 1) pid ∙ l; range = omega arith });
        full = λ q. absurd (ground arith);
        room = λ _. rw e (
          refl,
          rw size (take-drop-set cells f (suc r - f) (r + 1) pid (omega arith) (omega arith)),
        );
      }
]
enqueue-Enqueued cells _ _ pid l v = absurd v

-- `enqueue` on a valid level keeps it valid. It drops the pid, prints the message and changes
-- nothing exactly if `rear` is at the last cell of the row, be the cells before `front` free or
-- not; otherwise the pid goes behind those that wait.
pub enqueue_refines :
    (q : Level) (pid : ℕ)
    → IsValid q
    → IsValid (enqueue q pid).1
      × (q.rear ≡ some (max_len - 1) → enqueue q pid ≡ (true, q))
      × (q.rear ≢ some (max_len - 1)
          → ((enqueue q pid).0 ≡ false) × (contents (enqueue q pid).1 ≡ contents q ++ (pid ∷ [])))
unfolding enqueue
enqueue_refines q pid v =
    let e = enqueue-Enqueued q.cells q.front q.rear pid v.cells_len v.range in
    (e.valid, e.full, e.room)

-- What `dequeue` owes for a valid level.
abbrev Dequeued : Level → Option ℕ × Level → Type 0
Dequeued q out =
    IsValid out.1
    × ((contents q ≡ []) × (out ≡ (none, q))
        ⊎ ((x : ℕ) × (out.0 ≡ some x) × (contents q ≡ x ∷ contents out.1)))

dequeue-Dequeued :
    (cells : List ℕ) (front rear : Option ℕ)
    → length cells ≡ max_len
    → IsRange front rear
    → Dequeued (level cells front rear) (dequeue (level cells front rear))
unfolding dequeue
dequeue-Dequeued cells none none l v = (record { cells_len = l; range = tt }, inl (refl, refl))
dequeue-Dequeued cells (some f) (some r) l v = elim (ℕ_discrete f r) [
  | yes last ↦
      let e : dequeue (level cells (some f) (some r))
          ≡ (some (get_or cells f 0), level cells none none) =
        ground arith in
      let size : suc r - f ≡ 1 = omega arith in
      subst (Dequeued (level cells (some f) (some r))) (sym e) (
        record { cells_len = l; range = tt },
        inr (get_or cells f 0, refl, rw size (take-drop-cons cells f (f + 1) 0 refl (omega arith))),
      )
  | no h ↦
      let e : dequeue (level cells (some f) (some r))
          ≡ (some (get_or cells f 0), level cells (some (f + 1)) (some r)) =
        ground arith in
      let size : suc r - f ≡ suc (suc r - (f + 1)) = omega arith in
      subst (Dequeued (level cells (some f) (some r))) (sym e) (
        record { cells_len = l; range = omega arith },
        inr (
          get_or cells f 0,
          refl,
          rw size (take-drop-cons cells f (f + 1) (suc r - (f + 1)) refl (omega arith)),
        ),
      )
]
dequeue-Dequeued cells _ _ l v = absurd v

-- `dequeue` on a valid level keeps it valid, returns -1 on an empty one and leaves it alone, and
-- otherwise returns the first pid that waits and leaves the others.
pub dequeue_refines :
    (q : Level)
    → IsValid q
    → IsValid (dequeue q).1
      × ((contents q ≡ []) × (dequeue q ≡ (none, q))
          ⊎ ((x : ℕ) × ((dequeue q).0 ≡ some x) × (contents q ≡ x ∷ contents (dequeue q).1)))
dequeue_refines q v = dequeue-Dequeued q.cells q.front q.rear v.cells_len v.range
