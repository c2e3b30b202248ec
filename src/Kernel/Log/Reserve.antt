-- ===== src/Kernel/Log/Reserve.antt =====
-- No operation that keeps to its reservation panics in kernel/log.c.
use system_call_enhancement.Base.{
  ℕ, suc, ◌+◌, ◌-◌, ◌*◌, ◌≤◌, ◌<◌, ◌==◌, leb, ltb, All, Bool, true, false, ◌||◌, List, [], ◌∷◌,
  ◌++◌, length, length-append, some, none, ◌≡◌, ◌≢◌, refl, arith, ap, sym, subst, ◌∙◌, Bool-cases,
  inl, inr,
}
use system_call_enhancement.Kernel.Log.Writes.{nil_of_length}
use system_call_enhancement.Kernel.Log.{
  State, Log, max_op_blocks, log_size, fill, bwrite, bunpin, bpin, install_from, install_trans,
  write_head, write_log_from, write_log, commit, begin_op, leave_op, finish_commit, log_write,
  is_logged,
}
use system_call_enhancement.Kernel.Log.Budgets.{
  System, total, Step, Reach, Inv, total-middle, length-middle, total-le, All-middle, All-insert,
  begin, write, leave, finish, here, next,
}

begin_op-Inv :
    (s : System) (t : State)
    → Inv s
    → begin_op s.state ≡ some t
    → Inv (record { state = t; budgets = max_op_blocks ∷ s.budgets })
unfolding begin_op total
begin_op-Inv s t v h =
    let l = s.state.log in
    elim (Bool-cases
      (l.committing || ltb log_size (length l.blocks + (l.outstanding + 1) * max_op_blocks))) [
        | inl e ↦ absurd (ground (arith, h, e))
        | inr e ↦
            let h₁ : some (record s.state { log = record l { outstanding = l.outstanding + 1 } })
                ≡ some t =
              rw e at h in
            let same : record s.state { log = record l { outstanding = l.outstanding + 1 } } ≡ t =
              cc in
            subst (λ x. Inv (record { state = x; budgets = max_op_blocks ∷ s.budgets })) same
              (record {
                roomy = v.roomy;
                counted = omega (arith, v.counted);
                idle = λ q. absurd (ground (arith, q, e));
                each = (omega arith, v.each);
                fits = ground (arith, e, total-le s.budgets v.each, v.counted);
              })
      ]

log_write-Inv :
    (s : System) (t : State) (before after : List ℕ) (m b : ℕ)
    → Inv s
    → s.budgets ≡ before ++ (suc m ∷ after)
    → log_write b s.state ≡ some t
    → Inv (record { state = t; budgets = before ++ (m ∷ after) })
unfolding log_write
log_write-Inv s t before after m b v q h =
    let l = s.state.log in
    let n = length l.blocks in
    let counted : l.outstanding ≡ length (before ++ (m ∷ after)) =
      v.counted
      ∙ ap length q
      ∙ length-middle before after (suc m)
      ∙ sym (length-middle before after m) in
    let parts =
      All-middle (λ k. k ≤ max_op_blocks) before after (suc m)
        (subst (λ xs. All (λ k. k ≤ max_op_blocks) xs) q v.each) in
    let each =
      All-insert (λ k. k ≤ max_op_blocks) before after m (omega (arith, parts.0)) parts.1 in
    let fits : suc n + total (before ++ (m ∷ after)) ≤ log_size =
      omega (
        arith,
        v.fits,
        ap total q,
        total-middle before after (suc m),
        total-middle before after m,
      ) in
    elim (Bool-cases (leb log_size n || leb (l.size - 1) n)) [
      | inl e₁ ↦ absurd (ground (arith, h, e₁))
      | inr e₁ ↦ elim (Bool-cases (ltb l.outstanding 1)) [
        | inl e₂ ↦ absurd (ground (arith, h, e₁, e₂))
        | inr e₂ ↦ elim (Bool-cases (is_logged b l.blocks)) [
          | inl e₃ ↦
              let h₁ : some s.state ≡ some t = rw (e₁, e₂, e₃) at h in
              let same : s.state ≡ t = cc in
              subst (λ x. Inv (record { state = x; budgets = before ++ (m ∷ after) })) same
                (record {
                  roomy = v.roomy;
                  counted = counted;
                  idle = v.idle;
                  each = each;
                  fits = omega (arith, fits);
                })
          | inr e₃ ↦
              let s₁ = record (bpin b s.state) {
                log = record l { blocks = l.blocks ++ (b ∷ []) };
              } in
              let h₁ : some s₁ ≡ some t = rw (e₁, e₂, e₃) at h in
              let same : s₁ ≡ t = cc in
              subst (λ x. Inv (record { state = x; budgets = before ++ (m ∷ after) })) same
                (record {
                  roomy = v.roomy;
                  counted = counted;
                  idle = v.idle;
                  each = each;
                  fits = omega (arith, fits, length-append l.blocks (b ∷ []));
                })
        ]
      ]
    ]

leave_op-Inv :
    (s : System) (t : State) (before after : List ℕ) (m : ℕ) (do_commit : Bool)
    → Inv s
    → s.budgets ≡ before ++ (m ∷ after)
    → leave_op s.state ≡ some (do_commit, t)
    → Inv (record { state = t; budgets = before ++ after })
unfolding leave_op
leave_op-Inv s t before after m do_commit v q h =
    let l = s.state.log in
    let parts =
      All-middle (λ k. k ≤ max_op_blocks) before after m
        (subst (λ xs. All (λ k. k ≤ max_op_blocks) xs) q v.each) in
    elim (Bool-cases l.committing) [
      | inl e ↦ absurd (ground (arith, h, e))
      | inr e ↦
          let last : Bool = l.outstanding == 1 in
          let s₁ : State = record s.state {
            log = record l { outstanding = l.outstanding - 1; committing = last };
          } in
          let h₁ : some (last, s₁) ≡ some (do_commit, t) = rw e at h in
          let same : s₁ ≡ t = cc in
          subst (λ x. Inv (record { state = x; budgets = before ++ after })) same
            (record {
              roomy = v.roomy;
              counted = omega (arith, v.counted, ap length q, length-middle before after m);
              idle = λ r. ground (arith, r);
              each = parts.1;
              fits = omega (arith, v.fits, ap total q, total-middle before after m);
            })
    ]

-- What the log's record is after a commit.
install_from-log :
    (r : Bool) (tail : ℕ) (bs : List ℕ) (s : State) → (install_from r tail bs s).log ≡ s.log
unfolding install_from
install_from-log r tail [] s = refl
install_from-log true tail (b ∷ bs) s =
    install_from-log true (suc tail) bs (bwrite b (fill b (s.contents (s.log.start + tail + 1)) s))
install_from-log false tail (b ∷ bs) s =
    install_from-log false (suc tail) bs
      (bunpin b (bwrite b (fill b (s.contents (s.log.start + tail + 1)) s)))

write_log_from-log : (tail : ℕ) (bs : List ℕ) (s : State) → (write_log_from tail bs s).log ≡ s.log
unfolding write_log_from
write_log_from-log tail [] s = refl
write_log_from-log tail (b ∷ bs) s =
    let to = s.log.start + tail + 1 in
    write_log_from-log (suc tail) bs (bwrite to (fill to (s.contents b) s))

commit-log : (s : State) → (commit s).log ≡ record s.log { blocks = [] }
unfolding commit write_log install_trans write_head
commit-log s = elim (Bool-cases (length s.log.blocks == 0)) [
  | inl e ↦ rw e (ap (λ bs. record s.log { blocks = bs }) (nil_of_length s.log.blocks e))
  | inr e ↦
      let headed = write_head (write_log s) in
      rw e (
        ap (λ (l : Log). record l { blocks = [] })
          (install_from-log false 0 headed.log.blocks headed ∙ write_log_from-log 0 s.log.blocks s))
]

finish_commit-Inv :
    (s : System)
    → Inv s
    → s.state.log.committing ≡ true
    → Inv (record { state = finish_commit s.state; budgets = s.budgets })
unfolding finish_commit
finish_commit-Inv s v h =
    let e = commit-log s.state in
    record {
      roomy = omega (arith, v.roomy, ap (λ (l : Log). l.size) e);
      counted = ap (λ (l : Log). l.outstanding) e ∙ v.counted;
      idle = λ r. absurd (ground (arith, r));
      each = v.each;
      fits = omega (arith, v.fits, ap (λ (l : Log). length l.blocks) e);
    }

Step-Inv : {s t : System} → Step s t → Inv s → Inv t
Step-Inv (begin s t h) v = begin_op-Inv s t v h
Step-Inv (write s t before after m b q h) v = log_write-Inv s t before after m b v q h
Step-Inv (leave s t before after m c q h) v = leave_op-Inv s t before after m c v q h
Step-Inv (finish s h) v = finish_commit-Inv s v h

Reach-Inv : {s t : System} → Reach s t → Inv s → Inv t
Reach-Inv here v = v
Reach-Inv (next r st) v = Step-Inv st (Reach-Inv r v)

-- `log_write` does not panic on any block, and `leave_op` does not.
pub record Safe (s : State) : Type 0 where
  pub writes : (b : ℕ) → log_write b s ≢ none
  pub leaves : leave_op s ≢ none

writes-Safe :
    (s : System) (before after : List ℕ) (m b : ℕ)
    → Inv s
    → s.budgets ≡ before ++ (suc m ∷ after)
    → log_write b s.state ≢ none
unfolding log_write
writes-Safe s before after m b v q h =
    let l = s.state.log in
    let n : suc (length l.blocks) ≤ log_size =
      omega (arith, v.fits, ap total q, total-middle before after (suc m)) in
    let o = v.counted ∙ ap length q ∙ length-middle before after (suc m) in
    ground (arith, n, o, h, v.roomy)

leaves-Safe :
    (s : System) (before after : List ℕ) (m : ℕ)
    → Inv s
    → s.budgets ≡ before ++ (m ∷ after)
    → leave_op s.state ≢ none
unfolding leave_op
leaves-Safe s before after m v q h =
    let o = v.counted ∙ ap length q ∙ length-middle before after m in ground (arith, o, h, v.idle)

-- The log as `initlog` leaves it.
abbrev pub Fresh : State → Type 0
Fresh s = (s.log.outstanding ≡ 0) × (s.log.committing ≡ false) × (s.log.blocks ≡ [])

-- From a log with no operation and no block, of a size of more than `LOGSIZE`, on every
-- interleaving of operations that each call `log_write` at most `MAXOPBLOCKS` times between their
-- `begin_op` and their `end_op`: while an operation has calls left, neither its `log_write` of any
-- block nor its `end_op` panics.
pub log_write-Safe :
    (s t : System) (before after : List ℕ) (m : ℕ)
    → Fresh s.state
    → s.budgets ≡ []
    → log_size < s.state.log.size
    → Reach s t
    → t.budgets ≡ before ++ (suc m ∷ after)
    → Safe t.state
unfolding total
log_write-Safe s t before after m (o, c, e) none_left size r q =
    let v = Reach-Inv r (record {
      counted = o ∙ ap length (sym none_left);
      idle = λ _. o;
      each = subst (λ xs. All (λ k. k ≤ max_op_blocks) xs) (sym none_left) tt;
      roomy = size;
      fits = omega (arith, ap length e, ap total none_left);
    }) in
    record {
      writes = λ b. writes-Safe t before after m b v q;
      leaves = leaves-Safe t before after (suc m) v q;
    }
