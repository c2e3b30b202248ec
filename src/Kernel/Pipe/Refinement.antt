-- ===== src/Kernel/Pipe/Refinement.antt =====
-- The ring of kernel/pipe.c with its wrapping counters is a queue.
use system_call_enhancement.Base.{
  ℕ, zero, suc, ◌+◌, ◌%◌, ◌≤◌, ◌<◌, ◌==◌, if◌then◌else◌, Bool, true, false, not, ◌&&◌, ◌||◌, List,
  [], ◌∷◌, ◌++◌, length, Option, ◌≡◌, refl, arith, ap, ap₂, sym, ◌∙◌, Bool-cases, Option-cases, inl,
  inr, length-append,
}
use system_call_enhancement.Kernel.Pipe.{
  pipesize, uint, Channel, on_nread, on_nwrite, Pipe, wakeup, pipe_init, push, pop, Outcome,
  returned, failed, asleep, write_from, pipewrite, read_from, piperead,
}
use system_call_enhancement.Kernel.Pipe.Queue.{Queue, wake, append, put, take_out, get}

-- The ring holds the items from `nread` on.
unfoldable pub Holds : (data_ : ℕ → ℕ) → (from : ℕ) → List ℕ → Type 0
Holds data_ from [] = Unit
Holds data_ from (ch ∷ items) = (data_ (from % pipesize) ≡ ch) × Holds data_ (suc from) items

pub record Represents (pi : Pipe) (q : Queue) : Type 0 where
  pub bounded : pi.nread < 4294967296
  pub count : pi.nwrite ≡ uint (pi.nread + length q.items)
  pub room : length q.items ≤ pipesize
  pub holds : Holds pi.data_ pi.nread q.items
  pub readopen : pi.readopen ≡ q.readopen
  pub writeopen : pi.writeopen ≡ q.writeopen
  pub woken : pi.woken ≡ q.woken

-- The two sides end in the same way.
abbrev pub Agree {ℓ κ} :
    {S : Type ℓ} {T : Type κ} → (S → T → Type 0) → Outcome S → Outcome T → Type 0
Agree R (returned i s) (returned j t) = (i ≡ j) × R s t
Agree R (failed s) (failed t) = R s t
Agree R (asleep i s) (asleep j t) = (i ≡ j) × R s t
Agree R _ _ = ⊥

full_lem :
    (a n : ℕ) → n ≤ 512 → a < 4294967296 → (uint (a + n) == uint (a + pipesize)) ≡ (n == pipesize)
full_lem a n h b = ground arith

empty_lem : (a n : ℕ) → n ≤ 512 → a < 4294967296 → (a == uint (a + n)) ≡ (n == 0)
empty_lem a n h b = ground arith

Holds-mod :
    (d : ℕ → ℕ) (a b : ℕ) (items : List ℕ) → a % 512 ≡ b % 512 → Holds d a items → Holds d b items
unfolding Holds
Holds-mod d a b [] e h = tt
Holds-mod d a b (ch ∷ items) e (h, hs) =
    (ap d (sym e) ∙ h, Holds-mod d (suc a) (suc b) items (omega (arith, e)) hs)

-- A byte at the end of the ring
Holds-push :
    (d : ℕ → ℕ) (from k ch : ℕ) (items : List ℕ)
    → length items < 512
    → k ≡ (from + length items) % 512
    → Holds d from items
    → Holds (λ j. if j == k then ch else d j) from (items ++ (ch ∷ []))
unfolding Holds
Holds-push d from k ch [] lt e h = (ground (arith, e), tt)
Holds-push d from k ch (x ∷ items) lt e (h, hs) = (
  ground (arith, e, h, lt),
  Holds-push d (suc from) k ch items (omega (arith, lt)) (omega (arith, e)) hs,
)

push-Represents :
    (pi : Pipe) (q : Queue) (ch : ℕ)
    → Represents pi q
    → (length q.items == pipesize) ≡ false
    → Represents (push ch pi) (append ch q)
push-Represents pi q ch r free = record {
  bounded = r.bounded;
  count = omega (arith, r.count, length-append q.items (ch ∷ []));
  room = ground (arith, r.room, free, length-append q.items (ch ∷ []));
  holds =
      Holds-push pi.data_ pi.nread (pi.nwrite % 512) ch q.items (ground (arith, r.room, free))
        (omega (arith, r.count)) r.holds;
  readopen = r.readopen;
  writeopen = r.writeopen;
  woken = r.woken;
}

wakeup-Represents :
    (c : Channel) (pi : Pipe) (q : Queue) → Represents pi q → Represents (wakeup c pi) (wake c q)
wakeup-Represents c pi q r = record {
  bounded = r.bounded;
  count = r.count;
  room = r.room;
  holds = r.holds;
  readopen = r.readopen;
  writeopen = r.writeopen;
  woken = ap (λ cs. cs ++ (c ∷ [])) r.woken;
}

write_from-put :
    (copyin : ℕ → Option ℕ) (killed : ℕ → Bool) (addr left i : ℕ) (pi : Pipe) (q : Queue)
    → Represents pi q
    → Agree Represents (write_from copyin killed addr left i pi) (put copyin killed addr left i q)
unfolding write_from put
write_from-put copyin killed addr zero i pi q r = (refl, wakeup-Represents on_nread pi q r)
write_from-put copyin killed addr (suc left) i pi q r =
    let full : (pi.nwrite == uint (pi.nread + pipesize)) ≡ (length q.items == pipesize) =
      ap (λ n. n == uint (pi.nread + pipesize)) r.count
      ∙ full_lem pi.nread (length q.items) r.room r.bounded in
    let shut : (not pi.readopen || killed i) ≡ (not q.readopen || killed i) =
      ap (λ b. not b || killed i) r.readopen in
    elim (Bool-cases (not q.readopen || killed i)) [
      | inl e ↦ rw (shut, e) r
      | inr e ↦ elim (Bool-cases (length q.items == pipesize)) [
        | inl f ↦ rw (shut, e, full, f) ((refl, wakeup-Represents on_nread pi q r))
        | inr f ↦ elim (Option-cases (copyin (addr + i))) [
          | inl g ↦ rw (shut, e, full, f, g) ((refl, wakeup-Represents on_nread pi q r))
          | inr (ch, g) ↦
              let next =
                write_from-put copyin killed addr left (suc i) (push ch pi) (append ch q)
                  (push-Represents pi q ch r f) in
              rw (shut, e, full, f, g) next
        ]
      ]
    ]

Holds-uint :
    (d : ℕ → ℕ) (a : ℕ) (items : List ℕ) → Holds d (suc a) items → Holds d (uint (a + 1)) items
Holds-uint d a items h = Holds-mod d (suc a) (uint (a + 1)) items (omega arith) h

pop-Represents :
    (pi : Pipe) (q : Queue) (ch : ℕ) (items : List ℕ)
    → Represents pi (record q { items = ch ∷ items })
    → Represents (pop pi) (record q { items = items })
unfolding Holds
pop-Represents pi q ch items r = record {
  bounded = omega arith;
  count = omega (arith, r.count);
  room = omega (arith, r.room);
  holds = Holds-uint pi.data_ pi.nread items r.holds.1;
  readopen = r.readopen;
  writeopen = r.writeopen;
  woken = r.woken;
}

module _ {ℓ} {M : Type ℓ} (copyout : ℕ → ℕ → M → Option M) where
  -- The loop of `piperead` and `take_out` end alike.
  abbrev Same : ℕ × Pipe × M → Queue → ℕ × List ℕ × M → Type ℓ
  Same (i, pi, m) q (j, items, m₁) = (i ≡ j) × Represents pi (record q { items = items }) × (m ≡ m₁)

  read_from-take_out :
      (addr left i : ℕ) (pi : Pipe) (q : Queue) (items : List ℕ) (m : M)
      → Represents pi (record q { items = items })
      → Same (read_from copyout addr left i pi m) q (take_out copyout addr left i items m)
  unfolding read_from take_out Holds
  read_from-take_out addr zero i pi q items m r = (refl, r, refl)
  read_from-take_out addr (suc left) i pi q [] m r =
      let empty : (pi.nread == pi.nwrite) ≡ true =
        ap (λ n. pi.nread == n) r.count ∙ empty_lem pi.nread 0 r.room r.bounded in
      rw empty ((refl, r, refl))
  read_from-take_out addr (suc left) i pi q (ch ∷ items) m r =
      let some_left : (pi.nread == pi.nwrite) ≡ false =
        ap (λ n. pi.nread == n) r.count
        ∙ empty_lem pi.nread (suc (length items)) r.room r.bounded
        ∙ ground arith in
      let popped = pop-Represents pi q ch items r in
      elim (Option-cases (copyout (addr + i) ch m)) [
        | inl g ↦
            let out : take_out copyout addr (suc left) i (ch ∷ items) m ≡ (i, items, m) =
              rw (take_out, g) refl in
            rw (some_left, r.holds.0, g, out) ((refl, popped, refl))
        | inr (m₁, g) ↦
            let next = read_from-take_out addr left (suc i) (pop pi) q items m₁ popped in
            let out : take_out copyout addr (suc left) i (ch ∷ items) m
                ≡ take_out copyout addr left (suc i) items m₁ =
              rw (take_out, g) refl in
            rw (some_left, r.holds.0, g, out) next
      ]

-- The ring and the user's memory, beside a queue and the same memory
pub record Beside {ℓ} {M : Type ℓ} (x : Pipe × M) (y : Queue × M) : Type ℓ where
  pub represents : Represents x.0 y.0
  pub memory : x.1 ≡ y.1

-- A ring that represents a queue still does after `pipewrite`, with the queue that `put` makes: the
-- two end in the same way, be it with a result, with -1 or asleep, at the same index and with the
-- same calls of `wakeup`. This holds for every place of the counters, their wrap-around included.
pub pipewrite-put :
    (copyin : ℕ → Option ℕ) (killed : ℕ → Bool) (addr n : ℕ) (pi : Pipe) (q : Queue)
    → Represents pi q
    → Agree Represents (pipewrite copyin killed addr n pi) (put copyin killed addr n 0 q)
unfolding pipewrite
pipewrite-put copyin killed addr n pi q r = write_from-put copyin killed addr n 0 pi q r

-- A ring that represents a queue still does after `piperead`, with the queue that `get` leaves, and
-- the user's memory is the same: the two end in the same way, be it with a result, with -1 or
-- asleep.
pub piperead-get :
    {M : Type 0} (copyout : ℕ → ℕ → M → Option M) (killed : Bool) (addr n : ℕ) (pi : Pipe)
    (q : Queue) (m : M)
    → Represents pi q
    → Agree Beside (piperead copyout killed addr n pi m) (get copyout killed addr n q m)
unfolding piperead get
piperead-get copyout killed addr n pi q m r =
    let empty : (pi.nread == pi.nwrite) ≡ (length q.items == 0) =
      ap (λ k. pi.nread == k) r.count ∙ empty_lem pi.nread (length q.items) r.room r.bounded in
    let waits : (pi.nread == pi.nwrite && pi.writeopen) ≡ (length q.items == 0 && q.writeopen) =
      ap₂ (λ a b. a && b) empty r.writeopen in
    let copied = read_from-take_out copyout addr n 0 pi q q.items m r in
    elim (Bool-cases (length q.items == 0 && q.writeopen)) [
      | inr e ↦
          rw (waits, e)
            ((
              copied.0,
              record {
                represents =
                    wakeup-Represents on_nwrite (read_from copyout addr n 0 pi m).1
                      (record q { items = (take_out copyout addr n 0 q.items m).1 }) copied.1;
                memory = copied.2;
              },
            ))
      | inl e ↦ elim (Bool-cases killed) [
        | inl k ↦ rw (waits, e, k) (record { represents = r; memory = refl })
        | inr k ↦ rw (waits, e, k) ((refl, record { represents = r; memory = refl }))
      ]
    ]

-- The pipe that `pipealloc` makes represents the empty queue with both ends open.
pub pipe_init-Represents :
    (page : ℕ → ℕ)
    → Represents
        (pipe_init page)
        (record { items = []; readopen = true; writeopen = true; woken = [] })
unfolding Holds
pipe_init-Represents page = record {
  bounded = omega arith;
  count = refl;
  room = omega arith;
  holds = tt;
  readopen = refl;
  writeopen = refl;
  woken = refl;
}
