-- ===== src/Kernel/Spinlock/Exclusion.antt =====
-- Any number of CPUs that `acquire` and `release` one lock of kernel/spinlock.c, one memory access
-- at a time: the atomic swap of `acquire`, its store to `lk->cpu`, and the two stores of `release`.
use system_call_enhancement.Base.{
  ℕ, ◌==◌, if◌then◌else◌, Bool, true, false, ◌&&◌, none, some, ◌≡◌, refl, ◌≢◌, arith,
}
use system_call_enhancement.Kernel.Spinlock.{Spinlock, same_cpu}

-- Where a CPU stands: outside; in the `while` of `acquire`; after its swap; in the critical
-- section; and after the `lk->cpu = 0` of `release`. `failed` is a panic.
pub data Place : Type 0 where
  outside swapping won inside leaving failed : Place

pub record System : Type 0 where
  pub lock : Spinlock
  pub place : ℕ → Place

abbrev pub update : (ℕ → Place) → ℕ → Place → ℕ → Place
update f c p d = if c == d then p else f d

-- `holding` on CPU c
abbrev pub holds : Spinlock → ℕ → Bool
holds lk c = lk.locked && same_cpu lk.cpu c

-- One access by CPU c.
pub data Step (c : ℕ) : System → System → Type 0 where
  enter :
      (s : System)
      → s.place c ≡ outside
      → holds s.lock c ≡ false
      → Step c s (record s { place = update s.place c swapping })
  enter_panic :
      (s : System)
      → s.place c ≡ outside
      → holds s.lock c ≡ true
      → Step c s (record s { place = update s.place c failed })
  swap_taken :
      (s : System)
      → s.place c ≡ swapping
      → s.lock.locked ≡ true
      → Step c s (record s { lock = record s.lock { locked = true } })
  swap_free :
      (s : System)
      → s.place c ≡ swapping
      → s.lock.locked ≡ false
      → Step c s (record s { lock = record s.lock { locked = true }; place = update s.place c won })
  set_cpu :
      (s : System)
      → s.place c ≡ won
      → Step c s
          (record s { lock = record s.lock { cpu = some c }; place = update s.place c inside })
  clear_cpu :
      (s : System)
      → s.place c ≡ inside
      → holds s.lock c ≡ true
      → Step c s
          (record s { lock = record s.lock { cpu = none }; place = update s.place c leaving })
  release_panic :
      (s : System)
      → s.place c ≡ inside
      → holds s.lock c ≡ false
      → Step c s (record s { place = update s.place c failed })
  unlock :
      (s : System)
      → s.place c ≡ leaving
      → Step c s
          (record s { lock = record s.lock { locked = false }; place = update s.place c outside })

pub data Reach (s : System) : System → Type 0 where
  here : Reach s s
  next : {t u : System} (c : ℕ) → Reach s t → Step c t u → Reach s u

-- CPUs that have swapped a 1 in and not yet a 0
abbrev pub owns : Place → Bool
owns won = true
owns inside = true
owns leaving = true
owns _ = false

pub record Inv (s : System) : Type 0 where
  pub taken : (c : ℕ) → owns (s.place c) ≡ true → s.lock.locked ≡ true
  pub unique : (c d : ℕ) → owns (s.place c) ≡ true → owns (s.place d) ≡ true → c ≡ d
  pub recorded : (c : ℕ) → s.place c ≡ inside → s.lock.cpu ≡ some c
  pub only : (c : ℕ) → s.lock.cpu ≡ some c → s.place c ≡ inside
  pub safe : (c : ℕ) → s.place c ≢ failed

Step-taken :
    {c : ℕ} {s t : System}
    → Step c s t
    → Inv s
    → (d : ℕ) → owns (t.place d) ≡ true
    → t.lock.locked ≡ true
Step-taken {c} (enter s p h) v d q = ground (arith, v.taken d)
Step-taken {c} (enter_panic s p h) v d q = ground (arith, v.taken d)
Step-taken {c} (unlock s p) v d q = ground (arith, v.taken c, v.unique c d)
Step-taken {c} (set_cpu s p) v d q = ground (arith, v.taken c)
Step-taken {c} (release_panic s p h) v d q = ground (arith, v.taken c)
Step-taken {c} (clear_cpu s p h) v d q = ground (arith, v.taken c)
Step-taken {c} (swap_taken s p h) v d q = refl
Step-taken {c} (swap_free s p h) v d q = refl

Step-unique :
    {c : ℕ} {s t : System}
    → Step c s t
    → Inv s
    → (d e : ℕ) → owns (t.place d) ≡ true
    → owns (t.place e) ≡ true
    → d ≡ e
Step-unique {c} (enter s p h) v d e q r = ground (arith, v.unique d e)
Step-unique {c} (enter_panic s p h) v d e q r = ground (arith, v.unique d e)
Step-unique {c} (swap_taken s p h) v d e q r = v.unique d e q r
Step-unique {c} (swap_free s p h) v d e q r = ground (arith, v.taken d, v.taken e)
Step-unique {c} (set_cpu s p) v d e q r = ground (arith, v.unique d e, v.unique c e, v.unique d c)
Step-unique {c} (clear_cpu s p h) v d e q r =
    ground (arith, v.unique d e, v.unique c e, v.unique d c)
Step-unique {c} (release_panic s p h) v d e q r = ground (arith, v.unique d e)
Step-unique {c} (unlock s p) v d e q r = ground (arith, v.unique d e)

Step-recorded :
    {c : ℕ} {s t : System} → Step c s t → Inv s → (d : ℕ) → t.place d ≡ inside → t.lock.cpu ≡ some d
Step-recorded {c} (enter s p h) v d q = ground (arith, v.recorded d)
Step-recorded {c} (enter_panic s p h) v d q = ground (arith, v.recorded d)
Step-recorded {c} (swap_taken s p h) v d q = v.recorded d q
Step-recorded {c} (swap_free s p h) v d q = ground (arith, v.recorded d)
Step-recorded {c} (set_cpu s p) v d q = ground (arith, v.unique c d)
Step-recorded {c} (clear_cpu s p h) v d q = ground (arith, v.unique c d)
Step-recorded {c} (release_panic s p h) v d q = ground (arith, v.recorded d)
Step-recorded {c} (unlock s p) v d q = ground (arith, v.recorded d)

Step-only :
    {c : ℕ} {s t : System} → Step c s t → Inv s → (d : ℕ) → t.lock.cpu ≡ some d → t.place d ≡ inside
Step-only {c} (enter s p h) v d q = ground (arith, v.only d)
Step-only {c} (enter_panic s p h) v d q = ground (arith, v.only d, v.taken c)
Step-only {c} (swap_taken s p h) v d q = v.only d q
Step-only {c} (swap_free s p h) v d q = ground (arith, v.only d)
Step-only {c} (set_cpu s p) v d q = ground arith
Step-only {c} (clear_cpu s p h) v d q = ground (arith)
Step-only {c} (release_panic s p h) v d q = ground (arith, v.only d, v.recorded c, v.taken c)
Step-only {c} (unlock s p) v d q = ground (arith, v.only d)

Step-safe : {c : ℕ} {s t : System} → Step c s t → Inv s → (d : ℕ) → t.place d ≢ failed
Step-safe {c} (enter s p h) v d = ground (arith, v.safe d)
Step-safe {c} (enter_panic s p h) v d = ground (arith, v.only c, v.safe d)
Step-safe {c} (swap_taken s p h) v d = v.safe d
Step-safe {c} (swap_free s p h) v d = ground (arith, v.safe d)
Step-safe {c} (set_cpu s p) v d = ground (arith, v.safe d)
Step-safe {c} (clear_cpu s p h) v d = ground (arith, v.safe d)
Step-safe {c} (release_panic s p h) v d = ground (arith, v.recorded c, v.taken c)
Step-safe {c} (unlock s p) v d = ground (arith, v.safe d)

Step-Inv : {c : ℕ} {s t : System} → Step c s t → Inv s → Inv t
Step-Inv st v = record {
  taken = Step-taken st v;
  unique = Step-unique st v;
  recorded = Step-recorded st v;
  only = Step-only st v;
  safe = Step-safe st v;
}

-- A free lock with every CPU outside, as `initlock` leaves it.
pub record IsInitial (s : System) : Type 0 where
  pub free : s.lock.locked ≡ false
  pub nobody : s.lock.cpu ≡ none
  pub all_out : (c : ℕ) → s.place c ≡ outside

Initial-Inv : {s : System} → IsInitial s → Inv s
Initial-Inv i = record {
  taken = λ c q. ground (arith, i.all_out c);
  unique = λ c d q r. ground (arith, i.all_out c);
  recorded = λ c q. ground (arith, i.all_out c);
  only = λ c q. ground (arith, i.nobody);
  safe = λ c. ground (arith, i.all_out c);
}

Reach-Inv : {s t : System} → IsInitial s → Reach s t → Inv t
Reach-Inv i here = Initial-Inv i
Reach-Inv i (next c r st) = Step-Inv st (Reach-Inv i r)

-- In every state that CPUs that each acquire and release the lock in turn reach from a free lock,
-- in any interleaving of their accesses, two CPUs in the critical section are one CPU, the CPU in
-- the critical section is the one that `holding` answers true for, and no CPU has panicked.
pub acquire_exclusive :
    {s t : System}
    → IsInitial s
    → Reach s t
    → ((c d : ℕ) → t.place c ≡ inside → t.place d ≡ inside → c ≡ d)
      × ((c : ℕ)
          → (t.place c ≡ inside → holds t.lock c ≡ true)
            × (holds t.lock c ≡ true → t.place c ≡ inside))
      × ((c : ℕ) → t.place c ≢ failed)
acquire_exclusive {t = t} i r =
    let v = Reach-Inv i r in
    (
      λ c d p q. ground (arith, v.unique c d),
      λ c. (λ p. ground (arith, v.recorded c, v.taken c), λ p. ground (arith, v.only c)),
      v.safe,
    )
