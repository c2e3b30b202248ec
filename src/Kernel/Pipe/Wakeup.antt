-- ===== src/Kernel/Pipe/Wakeup.antt =====
-- Processes that sleep in `pipewrite` and `piperead` of kernel/pipe.c, and the calls of `wakeup`
-- that the others make.
use system_call_enhancement.Base.{
  ℕ, zero, suc, ◌+◌, ◌%◌, ◌==◌, Bool, true, false, not, ◌&&◌, ◌||◌, List, [], ◌∷◌, Option, ◌≡◌,
  refl, arith, ap₂, Bool-cases, Option-cases, inl, inr,
}
use system_call_enhancement.Kernel.Pipe.{
  pipesize, uint, Channel, on_nread, on_nwrite, Pipe, wakeup, pipe_init, push, pop, Outcome,
  returned, failed, asleep, write_from, read_from, piperead, pipeclose,
}

-- Whether some process sleeps on `&pi->nread`, and on `&pi->nwrite`.
pub record System : Type 0 where
  pub pipe : Pipe
  pub readers : Bool
  pub writers : Bool

abbrev same_channel : Channel → Channel → Bool
same_channel on_nread on_nread = true
same_channel on_nwrite on_nwrite = true
same_channel _ _ = false

-- No call of `wakeup` was on the channel.
abbrev pub quiet : Channel → List Channel → Bool
quiet c [] = true
quiet c (d ∷ ds) = not (same_channel c d) && quiet c ds

-- What a stretch leaves: the sleepers that its wakeups missed.
abbrev pub left_by : System → Pipe → System
left_by s pi = record {
  pipe = pi;
  readers = s.readers && quiet on_nread pi.woken;
  writers = s.writers && quiet on_nwrite pi.woken;
}

abbrev pub start : System → Pipe
start s = record s.pipe { woken = [] }

-- The process that wrote is asleep now, or it is not.
abbrev pub after_write : System → Outcome Pipe → System
after_write s (returned i pi) = left_by s pi
after_write s (failed pi) = left_by s pi
after_write s (asleep i pi) = record (left_by s pi) { writers = true }

abbrev pub after_read {ℓ} : {M : Type ℓ} → System → Outcome (Pipe × M) → System
after_read s (returned i (pi, m)) = left_by s pi
after_read s (failed (pi, m)) = left_by s pi
after_read s (asleep i (pi, m)) = record (left_by s pi) { readers = true }

-- One stretch of some process, for which `killed` has one answer all along.
pub data Step : System → System → Type 1 where
  write :
      (s : System) (copyin : ℕ → Option ℕ) (killed : Bool) (addr left i : ℕ)
      → Step s (after_write s (write_from copyin (λ _. killed) addr left i (start s)))
  read :
      (s : System) {M : Type 0} (copyout : ℕ → ℕ → M → Option M) (killed : Bool) (addr n : ℕ)
      (m : M)
      → Step s (after_read s (piperead copyout killed addr n (start s) m))
  close : (s : System) (writable : Bool) → Step s (left_by s (pipeclose writable (start s)).0)

pub data Reach (s : System) : System → Type 1 where
  here : Reach s s
  next : {t u : System} → Reach s t → Step t u → Reach s u

abbrev pub is_full : Pipe → Bool
is_full pi = pi.nwrite == uint (pi.nread + pipesize)

-- The condition of the loop of `piperead`
abbrev pub must_wait : Pipe → Bool
must_wait pi = pi.nread == pi.nwrite && pi.writeopen

-- A test that holds whenever another does
abbrev pub implied : Bool → Bool → Bool
implied a b = not a || b

pub record Inv (s : System) : Type 0 where
  pub reading : implied s.readers (must_wait s.pipe) ≡ true
  pub writing : implied s.writers (is_full s.pipe && s.pipe.readopen) ≡ true

implied-false : (b : Bool) {a : Bool} → a ≡ false → implied a b ≡ true
implied-false b {a} e = rw e refl

implied_less : (a b c : Bool) → implied a c ≡ true → implied (a && b) c ≡ true
implied_less true true c h = h
implied_less true false c h = refl
implied_less false b c h = refl

implied-true : (a : Bool) {b : Bool} → b ≡ true → implied a b ≡ true
implied-true true e = e
implied-true false e = refl

and_false : (a : Bool) {b : Bool} → b ≡ false → (a && b) ≡ false
and_false true e = e
and_false false e = refl

-- A stretch that ends with `wakeup(&pi->nread)`.
woken_readers :
    (s : System) (pi : Pipe)
    → pi.woken ≡ []
    → implied s.writers (is_full pi && pi.readopen) ≡ true
    → Inv (left_by s (wakeup on_nread pi))
woken_readers s pi e w = record {
  reading = implied-false (must_wait pi) (and_false s.readers (rw e refl));
  writing =
      implied_less s.writers (quiet on_nwrite (wakeup on_nread pi).woken)
        (is_full pi && pi.readopen) w;
}

write_from-Inv :
    (s : System) (copyin : ℕ → Option ℕ) (killed : Bool) (addr left i : ℕ) (pi : Pipe)
    → pi.woken ≡ []
    → implied s.writers (is_full pi && pi.readopen) ≡ true
    → killed ≡ false
    → pi.readopen ≡ true
    → Inv (after_write s (write_from copyin (λ _. killed) addr left i pi))
unfolding write_from
write_from-Inv s copyin killed addr zero i pi e w k o = woken_readers s pi e w
write_from-Inv s copyin killed addr (suc left) i pi e w k o =
    let open_ : (not pi.readopen || killed) ≡ false = rw (o, k) refl in
    elim (Bool-cases (is_full pi)) [
      | inl f ↦
          rw (open_, f)
            (record {
              reading = (woken_readers s pi e w).reading;
              writing = implied-true true (ap₂ (λ a b. a && b) f o);
            })
      | inr f ↦ elim (Option-cases (copyin (addr + i))) [
        | inl g ↦ rw (open_, f, g) (woken_readers s pi e w)
        | inr (ch, g) ↦
            let awake : s.writers ≡ false = ground (arith, w, f, o) in
            let next =
              write_from-Inv s copyin killed addr left (suc i) (push ch pi) e
                (implied-false (is_full (push ch pi) && pi.readopen) awake) k o in
            rw (open_, f, g) next
      ]
    ]

-- A stretch that wakes nobody up and changes nothing.
writing_left :
    (s : System) → Inv s → implied (s.writers && true) (is_full s.pipe && s.pipe.readopen) ≡ true
writing_left s v = implied_less s.writers true (is_full s.pipe && s.pipe.readopen) v.writing

start-Inv : (s : System) → Inv s → Inv (left_by s (start s))
start-Inv s v = record {
  reading = implied_less s.readers true (must_wait s.pipe) v.reading;
  writing = writing_left s v;
}

-- The first test of the loop
write-Inv :
    (s : System) (copyin : ℕ → Option ℕ) (killed : Bool) (addr left i : ℕ)
    → Inv s
    → Inv (after_write s (write_from copyin (λ _. killed) addr left i (start s)))
unfolding write_from
write-Inv s copyin killed addr zero i v = woken_readers s (start s) refl v.writing
write-Inv s copyin killed addr (suc left) i v = elim (Bool-cases (not s.pipe.readopen || killed)) [
  | inl e ↦ rw e (start-Inv s v)
  | inr e ↦
      write_from-Inv s copyin killed addr (suc left) i (start s) refl v.writing (ground (arith, e))
        (ground (arith, e))
]

read_from-fields :
    {M : Type 0} (copyout : ℕ → ℕ → M → Option M) (addr left i : ℕ) (pi : Pipe) (m : M)
    → ((read_from copyout addr left i pi m).1.woken ≡ pi.woken)
unfolding read_from
read_from-fields copyout addr zero i pi m = refl
read_from-fields copyout addr (suc left) i pi m = elim (Bool-cases (pi.nread == pi.nwrite)) [
  | inl e ↦ rw e refl
  | inr e ↦ elim (Option-cases (copyout (addr + i) (pi.data_ (pi.nread % pipesize)) m)) [
    | inl g ↦ rw (e, g) refl
    | inr (m₁, g) ↦
        let next = read_from-fields copyout addr left (suc i) (pop pi) m₁ in rw (e, g) next
  ]
]

read-Inv :
    (s : System) {M : Type 0} (copyout : ℕ → ℕ → M → Option M) (killed : Bool) (addr n : ℕ) (m : M)
    → Inv s
    → Inv (after_read s (piperead copyout killed addr n (start s) m))
unfolding piperead
read-Inv s copyout killed addr n m v = elim (Bool-cases (must_wait s.pipe)) [
  | inr e ↦ rw e (record {
    reading =
        implied-false (must_wait (read_from copyout addr n 0 (start s) m).1)
          (ground (arith, e, v.reading));
    writing =
        implied-false
          (is_full (read_from copyout addr n 0 (start s) m).1
            && (read_from copyout addr n 0 (start s) m).1.readopen)
          (and_false s.writers (rw (read_from-fields copyout addr n 0 (start s) m) refl));
  })
  | inl e ↦ elim (Bool-cases killed) [
    | inl k ↦
        rw (e, k)
          (record {
            reading = implied_less s.readers true (must_wait s.pipe) v.reading;
            writing = writing_left s v;
          })
    | inr k ↦ rw (e, k) (record { reading = e; writing = writing_left s v })
  ]
]

close-Inv :
    (s : System) (writable : Bool) → Inv s → Inv (left_by s (pipeclose writable (start s)).0)
unfolding pipeclose
close-Inv s true v = record {
  reading = implied-false (s.pipe.nread == s.pipe.nwrite && false) (and_false s.readers refl);
  writing = writing_left s v;
}
close-Inv s false v = record {
  reading = implied_less s.readers true (must_wait s.pipe) v.reading;
  writing = implied-false (is_full s.pipe && false) (and_false s.writers refl);
}

Step-Inv : {s t : System} → Step s t → Inv s → Inv t
Step-Inv (write s copyin killed addr left i) v = write-Inv s copyin killed addr left i v
Step-Inv (read s copyout killed addr n m) v = read-Inv s copyout killed addr n m v
Step-Inv (close s writable) v = close-Inv s writable v

Reach-Inv : {s t : System} → Reach s t → Inv s → Inv t
Reach-Inv here v = v
Reach-Inv (next r st) v = Step-Inv st (Reach-Inv r v)

-- No wakeup is lost. After any sequence of stretches of readers, writers and closers, each with one
-- answer of `killed` all along, on a pipe that `pipealloc` has made: when a reader sleeps, the pipe
-- is empty and its write end open, and when a writer sleeps, the pipe is full and its read end
-- open.
pub no_lost_wakeup :
    (page : ℕ → ℕ) (t : System)
    → Reach (record { pipe = pipe_init page; readers = false; writers = false }) t
    → (implied t.readers (must_wait t.pipe) ≡ true)
      × (implied t.writers (is_full t.pipe && t.pipe.readopen) ≡ true)
no_lost_wakeup page t r =
    let v = Reach-Inv r (record { reading = refl; writing = refl }) in (v.reading, v.writing)
