-- ===== src/Kernel/Sleeplock/Waiting.antt =====
-- Processes at a sleep lock of kernel/sleeplock.c, in any order.
use system_call_enhancement.Base.{
  ℕ, ◌≤◌, if◌then◌else◌, Bool, true, false, List, [], ◌∷◌, ◌++◌, length, ◌≡◌, ◌↔◌, refl, sym, ap,
  ◌∙◌, arith,
}
use Prim.Native.String.{String}
use system_call_enhancement.Kernel.Sleeplock.{
  Sleeplock, initsleeplock, acquiresleep, releasesleep, holdingsleep,
}

-- The lock, and the processes whose `acquiresleep` has returned and that have not called
-- `releasesleep` since.
pub record System : Type 0 where
  pub lock : Sleeplock
  pub holders : List ℕ

if_true {ℓ} : {A : Type ℓ} (b : Bool) (x y : A) → b ≡ true → (if b then x else y) ≡ x
if_true b x y h = rw h refl

if_false {ℓ} : {A : Type ℓ} (b : Bool) (x y : A) → b ≡ false → (if b then x else y) ≡ y
if_false b x y h = rw h refl

pub data Step : System → System → Type 0 where
  enter :
      (s : System) (t : Sleeplock) (pid : ℕ)
      → acquiresleep pid s.lock ≡ (true, t)
      → Step s (record { lock = t; holders = pid ∷ s.holders })
  wait :
      (s : System) (t : Sleeplock) (pid : ℕ)
      → acquiresleep pid s.lock ≡ (false, t)
      → Step s (record { lock = t; holders = s.holders })
  -- A process that holds the lock calls `releasesleep`; others could, and the code would not notice.
  leave :
      (s : System) (before after : List ℕ) (pid : ℕ)
      → s.holders ≡ before ++ (pid ∷ after)
      → Step s (record { lock = releasesleep s.lock; holders = before ++ after })
  -- `kill` wakes one of them.
  killed :
      (s : System) (before after : List ℕ) (pid : ℕ)
      → s.lock.sleepers ≡ before ++ (pid ∷ after)
      → Step s (record { lock = record s.lock { sleepers = before ++ after }; holders = s.holders })

pub data Reach (s : System) : System → Type 0 where
  here : Reach s s
  next : {t u : System} → Reach s t → Step t u → Reach s u

-- How the lock stands with those who hold it and those who wait
data Inv (s : System) : Type 0 where
  idle : s.lock.locked ≡ false → s.holders ≡ [] → s.lock.sleepers ≡ [] → Inv s
  busy : s.lock.locked ≡ true → s.holders ≡ s.lock.pid ∷ [] → Inv s

acquiresleep-free :
    (pid : ℕ) (lk : Sleeplock)
    → lk.locked ≡ false
    → acquiresleep pid lk ≡ (true, record lk { locked = true; pid = pid })
unfolding acquiresleep
acquiresleep-free pid lk h = if_false lk.locked _ _ h

acquiresleep-taken :
    (pid : ℕ) (lk : Sleeplock)
    → lk.locked ≡ true
    → acquiresleep pid lk ≡ (false, record lk { sleepers = pid ∷ lk.sleepers })
unfolding acquiresleep
acquiresleep-taken pid lk h = if_true lk.locked _ _ h

-- A list with one entry or with none, taken apart
only :
    (xs before after : List ℕ) (p q : ℕ)
    → xs ≡ p ∷ []
    → xs ≡ before ++ (q ∷ after)
    → before ++ after ≡ []
only xs [] [] p q h e = refl
only xs [] (x ∷ after) p q h e = absurd (ground (arith, sym h ∙ e))
only xs (y ∷ []) after p q h e = absurd (ground (arith, sym h ∙ e))
only xs (y ∷ z ∷ before) after p q h e = absurd (ground (arith, sym h ∙ e))

no_entry :
    (xs before after : List ℕ) (q : ℕ) → xs ≡ [] → xs ≡ before ++ (q ∷ after) → before ++ after ≡ []
no_entry xs [] after q h e = absurd (ground (arith, sym h ∙ e))
no_entry xs (y ∷ before) after q h e = absurd (ground (arith, sym h ∙ e))

Step-Inv : {s t : System} → Step s t → Inv s → Inv t
unfolding releasesleep
Step-Inv (enter s t pid e) (idle l h z) =
    let r = sym (acquiresleep-free pid s.lock l) ∙ e in
    busy (sym (ap (λ x. x.1.locked) r)) (ap (λ hs. pid ∷ hs) h ∙ ap (λ x. x.1.pid ∷ []) r)
Step-Inv (enter s t pid e) (busy l h) =
    let r = sym (acquiresleep-taken pid s.lock l) ∙ e in
    let bad : false ≡ true = ap (λ x. x.0) r in absurd cc
Step-Inv (wait s t pid e) (idle l h z) =
    let r = sym (acquiresleep-free pid s.lock l) ∙ e in
    let bad : true ≡ false = ap (λ x. x.0) r in absurd cc
Step-Inv (wait s t pid e) (busy l h) =
    let r = sym (acquiresleep-taken pid s.lock l) ∙ e in
    busy (sym (ap (λ x. x.1.locked) r) ∙ l) (h ∙ ap (λ x. x.1.pid ∷ []) r)
Step-Inv (leave s before after pid e) (idle l h z) =
    idle refl (no_entry s.holders before after pid h e) refl
Step-Inv (leave s before after pid e) (busy l h) =
    idle refl (only s.holders before after s.lock.pid pid h e) refl
Step-Inv (killed s before after pid e) (idle l h z) =
    idle l h (no_entry s.lock.sleepers before after pid z e)
Step-Inv (killed s before after pid e) (busy l h) = busy l h

Reach-Inv : {s t : System} → Reach s t → Inv s → Inv t
Reach-Inv here v = v
Reach-Inv (next r st) v = Step-Inv st (Reach-Inv r v)

abbrev pub start : String → System
start name = record { lock = initsleeplock name; holders = [] }

-- What a process may rely on at a sleep lock
pub record Exclusive (s : System) : Type 0 where
  pub one_holder : length s.holders ≤ 1
  pub test : (pid : ℕ) → (holdingsleep pid s.lock ≡ true) ↔ (s.holders ≡ pid ∷ [])
  pub no_lost_wakeup : s.holders ≡ [] → s.lock.sleepers ≡ []

-- In whatever order processes call `acquiresleep`, `releasesleep` and `kill` at a lock from
-- `initsleeplock` on, provided that only a process that holds the lock calls `releasesleep`, one of
-- them at most holds it; `holdingsleep` is true for exactly that one; and while nobody holds it,
-- nobody sleeps on it. (`releasesleep` itself does not check who calls it.)
pub sleeplock-Exclusive : (name : String) (s : System) → Reach (start name) s → Exclusive s
unfolding initsleeplock holdingsleep
sleeplock-Exclusive name s r = elim (Reach-Inv r (idle refl refl refl)) [
  | idle l h z ↦ record {
    one_holder = omega (arith, ap length h);
    test = λ pid. ((λ t. absurd (ground (arith, l, t))), λ t. absurd (ground (arith, sym h ∙ t)));
    no_lost_wakeup = λ e. z;
  }
  | busy l h ↦ record {
    one_holder = omega (arith, ap length h);
    test = λ pid. (
      λ t. let same : s.lock.pid ≡ pid = ground (arith, t) in h ∙ ap (λ p. p ∷ []) same,
      λ t. let both = sym h ∙ t in let same : s.lock.pid ≡ pid = cc in ground (arith, l, same),
    );
    no_lost_wakeup = λ e. absurd (ground (arith, sym h ∙ e));
  }
]
