-- ===== src/Scheduling/MlfqImproved/Absent.antt =====
-- The queue of schedulling_algorithms/sched_algo_mlfqs_improved.c: `enqueue` adds the pids that are
-- not in it.
use system_call_enhancement.Base.{
  ℕ, zero, suc, ◌+◌, ◌-◌, ◌≤◌, ◌<◌, ◌==◌, leb, ltb, if◌then◌else◌, Bool, true, false, ◌&&◌, ◌||◌,
  Option, none, some, List, [], ◌∷◌, ◌++◌, length, length-set, get_or, set, take, drop, All, ◌≡◌,
  ◌≢◌, refl, arith, ap, sym, subst, ◌∙◌, Bool-cases, inl, inr,
}
use system_call_enhancement.Scheduling.Mlfq.{max_len, Level}
use system_call_enhancement.Scheduling.Mlfq.Queue.{
  IsRange, IsValid, contents, take-drop-set, take-drop-cons, level,
}
use system_call_enhancement.Scheduling.MlfqImproved.{
  Process, in_cells, is_in_queue, enqueue_pid, enqueue_ready, enqueue,
}

abbrev pub is_in : ℕ → List ℕ → Bool
is_in pid [] = false
is_in pid (x ∷ xs) = x == pid || is_in pid xs

abbrev pub insert : ℕ → List ℕ → List ℕ
insert pid xs = if is_in pid xs then xs else xs ++ (pid ∷ [])

-- The pids of the processes that have arrived and are unfinished go in, in the order of the list.
abbrev pub insert_ready : (now : ℕ) → List Process → List ℕ → List ℕ
insert_ready now [] xs = xs
insert_ready now (p ∷ ps) xs =
    insert_ready now ps (if leb p.at now && ltb 0 p.remain then insert p.pid xs else xs)

abbrev pub insert_last : Option ℕ → List ℕ → List ℕ
insert_last none xs = xs
insert_last (some pid) xs = insert pid xs

-- The cells up to `rear`
abbrev pub used : Level → ℕ
used q = elim q.rear [ none ↦ 0 | some r ↦ suc r ]

in_cells-is_in :
    (cells : List ℕ) (n i pid : ℕ)
    → i + n ≤ length cells
    → in_cells cells n i pid ≡ is_in pid (take n (drop i cells))
unfolding in_cells
in_cells-is_in cells zero i pid h = refl
in_cells-is_in cells (suc n) i pid h =
    ap (λ b. get_or cells i 0 == pid || b) (in_cells-is_in cells n (suc i) pid (omega arith))
    ∙ ap (is_in pid) (sym (take-drop-cons cells i (suc i) n (omega arith) (omega arith)))

is_in_queue_lem :
    (stray : ℕ) (cells : List ℕ) (front rear : Option ℕ) (pid : ℕ)
    → length cells ≡ max_len
    → IsRange front rear
    → stray ≢ pid
    → is_in_queue stray (level cells front rear) pid ≡ is_in pid (contents (level cells front rear))
unfolding is_in_queue
is_in_queue_lem stray cells none none pid l v h = ground (arith, h)
is_in_queue_lem stray cells (some f) (some r) pid l v h =
    in_cells-is_in cells (suc r - f) f pid (omega (arith, l, v.0, v.1))
is_in_queue_lem stray cells _ _ pid l v h = absurd v

-- What `enqueue` owes, with n cells used at most.
pub record Added (out : Option Level) (n : ℕ) (xs : List ℕ) : Type 0 where
  pub queue : Level
  pub succeeds : out ≡ some queue
  pub valid : IsValid queue
  pub content : contents queue ≡ xs
  pub cells : used queue ≤ n

enqueue_pid-Added :
    (stray : ℕ) (cells : List ℕ) (front rear : Option ℕ) (pid : ℕ)
    → length cells ≡ max_len
    → IsRange front rear
    → stray ≢ pid
    → used (level cells front rear) < max_len
    → Added
        (enqueue_pid stray (level cells front rear) pid)
        (suc (used (level cells front rear)))
        (insert pid (contents (level cells front rear)))
unfolding enqueue_pid
enqueue_pid-Added stray cells none none pid l v h u =
    let absent = is_in_queue_lem stray cells none none pid l v h in
    record {
      queue = level (set cells 0 pid) (some 0) (some 0);
      succeeds = rw absent refl;
      valid = record { cells_len = length-set cells 0 pid ∙ l; range = omega arith };
      content = take-drop-set cells 0 0 0 pid refl (omega (arith, l));
      cells = omega arith;
    }
enqueue_pid-Added stray cells (some f) (some r) pid l v h u =
    let q = level cells (some f) (some r) in
    let known = is_in_queue_lem stray cells (some f) (some r) pid l v h in
    elim (Bool-cases (is_in pid (contents q))) [
      | inl e ↦
          rw (known, e)
            (record {
              queue = q;
              succeeds = refl;
              valid = record { cells_len = l; range = v };
              content = refl;
              cells = omega arith;
            })
      | inr e ↦
          let fits : ltb (r + 1) max_len ≡ true = ground (arith, u) in
          let size : suc (r + 1) - f ≡ suc (suc r - f) = omega (arith, v.0) in
          rw (known, e, fits)
            (record {
              queue = level (set cells (r + 1) pid) (some f) (some (r + 1));
              succeeds = refl;
              valid = record {
                cells_len = length-set cells (r + 1) pid ∙ l;
                range = (omega (arith, v.0), omega (arith, u));
              };
              content = rw size (
                  take-drop-set cells f (suc r - f) (r + 1) pid (omega (arith, v.0))
                    (omega (arith, l, u)));
              cells = omega arith;
            })
    ]
enqueue_pid-Added stray cells _ _ pid l v h u = absurd v

-- A bound on the cells that is not reached.
loosen : {out : Option Level} (m n : ℕ) {xs : List ℕ} → m ≤ n → Added out m xs → Added out n xs
loosen m n h a = record {
  queue = a.queue;
  succeeds = a.succeeds;
  valid = a.valid;
  content = a.content;
  cells = omega (arith, h, a.cells);
}

add_pid :
    (stray : ℕ) (q : Level) (pid : ℕ)
    → IsValid q
    → stray ≢ pid
    → used q < max_len
    → Added (enqueue_pid stray q pid) (suc (used q)) (insert pid (contents q))
add_pid stray q pid v h u =
    enqueue_pid-Added stray q.cells q.front q.rear pid v.cells_len v.range h u

-- One process of the loop
add_ready :
    (stray : ℕ) (q : Level) (ready : Bool) (pid : ℕ)
    → IsValid q
    → stray ≢ pid
    → used q < max_len
    → Added
        (if ready then enqueue_pid stray q pid else some q)
        (suc (used q))
        (if ready then insert pid (contents q) else contents q)
add_ready stray q true pid v h u = add_pid stray q pid v h u
add_ready stray q false pid v h u = record {
  queue = q;
  succeeds = refl;
  valid = v;
  content = refl;
  cells = omega arith;
}

enqueue_ready-cons :
    (stray now : ℕ) (p : Process) (ps : List Process) (q : Level) {q₁ : Level}
    → (if leb p.at now && ltb 0 p.remain then enqueue_pid stray q p.pid else some q) ≡ some q₁
    → enqueue_ready stray now (p ∷ ps) q ≡ enqueue_ready stray now ps q₁
unfolding enqueue_ready
enqueue_ready-cons stray now p ps q e = rw (enqueue_ready, e) refl

enqueue-none :
    (stray now : ℕ) (head : List Process) (q : Level) {q₁ : Level}
    → enqueue_ready stray now head q ≡ some q₁
    → enqueue stray now head q none ≡ some q₁
unfolding enqueue
enqueue-none stray now head q e = rw (enqueue, e) refl

enqueue-some :
    (stray now : ℕ) (head : List Process) (q : Level) (pid : ℕ) {q₁ : Level}
    → enqueue_ready stray now head q ≡ some q₁
    → enqueue stray now head q (some pid) ≡ enqueue_pid stray q₁ pid
unfolding enqueue
enqueue-some stray now head q pid e = rw (enqueue, e) refl

enqueue_ready-Added :
    (stray now : ℕ) (ps : List Process) (q : Level)
    → IsValid q
    → All (λ p. stray ≢ p.pid) ps
    → used q + length ps ≤ max_len
    → Added (enqueue_ready stray now ps q) (used q + length ps) (insert_ready now ps (contents q))
unfolding enqueue_ready
enqueue_ready-Added stray now [] q v h u = record {
  queue = q;
  succeeds = refl;
  valid = v;
  content = refl;
  cells = omega arith;
}
enqueue_ready-Added stray now (p ∷ ps) q v (h, hs) u =
    let a = add_ready stray q (leb p.at now && ltb 0 p.remain) p.pid v h (omega arith) in
    let r = enqueue_ready-Added stray now ps a.queue a.valid hs (omega (arith, a.cells)) in
    let step : enqueue_ready stray now (p ∷ ps) q ≡ enqueue_ready stray now ps a.queue =
      enqueue_ready-cons stray now p ps q a.succeeds in
    subst (λ o. Added o (used q + suc (length ps)) (insert_ready now (p ∷ ps) (contents q)))
      (sym step)
      (subst (Added (enqueue_ready stray now ps a.queue) (used q + suc (length ps)))
        (ap (insert_ready now ps) a.content)
        (loosen (used a.queue + length ps) (used q + suc (length ps)) (omega (arith, a.cells)) r))

-- While the cells behind `rear` are enough for one pid of each process and one more, and queue[-1]
-- holds none of these pids, `enqueue` succeeds. It keeps the queue valid, and adds behind the pids
-- that wait those of the processes that have arrived and are unfinished, in their order, and then
-- the given one, each unless it is there already.
pub enqueue-Added :
    (stray now : ℕ) (head : List Process) (q : Level) (pid : Option ℕ)
    → IsValid q
    → All (λ p. stray ≢ p.pid) head
    → pid ≢ some stray
    → used q + length head < max_len
    → Added
        (enqueue stray now head q pid)
        (used q + length head + 1)
        (insert_last pid (insert_ready now head (contents q)))
unfolding enqueue
enqueue-Added stray now head q none v h k u =
    let r = enqueue_ready-Added stray now head q v h (omega (arith, u)) in
    let step : enqueue stray now head q none ≡ some r.queue =
      enqueue-none stray now head q r.succeeds in
    subst (λ o. Added o (used q + length head + 1) (insert_ready now head (contents q))) (sym step)
      (record {
        queue = r.queue;
        succeeds = refl;
        valid = r.valid;
        content = r.content;
        cells = omega (arith, r.cells);
      })
enqueue-Added stray now head q (some pid) v h k u =
    let r = enqueue_ready-Added stray now head q v h (omega (arith, u)) in
    let a =
      add_pid stray r.queue pid r.valid (λ e. k (ap (λ x. some x) (sym e)))
        (omega (arith, r.cells, u)) in
    let step : enqueue stray now head q (some pid) ≡ enqueue_pid stray r.queue pid =
      enqueue-some stray now head q pid r.succeeds in
    subst
      (λ o. Added o (used q + length head + 1) (insert pid (insert_ready now head (contents q))))
      (sym step)
      (subst (Added (enqueue_pid stray r.queue pid) (used q + length head + 1))
        (ap (insert pid) r.content)
        (loosen (suc (used r.queue)) (used q + length head + 1) (omega (arith, r.cells)) a))
