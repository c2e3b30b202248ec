-- ===== src/Kernel/Proc/Exit/Effect.antt =====
-- The scan of the table by `wait` of kernel/proc.c, and what it does to a ZOMBIE child, when no
-- other lock than `wait_lock` is held.
use system_call_enhancement.Base.{
  ℕ, zero, suc, ◌+◌, ◌≤◌, ◌<◌, ◌==◌, if◌then◌else◌, Bool, true, false, ◌&&◌, some, set, get_elem?,
  length, ◌≡◌, ◌≢◌, refl, arith, set-set, set_of_get_elem?, get_elem?-set_self, get_elem?-set_ne,
  get_elem?_of_lt, lt-length_of_get_elem?, Bool-cases, inl, inr, ◌∙◌, sym, ap,
}
use system_call_enhancement.Base.Int.{ℤ, negsuc}
use system_call_enhancement.Kernel.Spinlock.{ok, ◌>>=◌, Hart, push_off}
use system_call_enhancement.Kernel.Spinlock.Nesting.{
  IsNested, IsFree, settle, held_by, push_off-IsNested, settle-push_off, release-held_by,
}
use system_call_enhancement.Kernel.Proc.{
  AllFree, ProcState, Proc, Kernel, Services, same_state, same_proc, deref_lem, deref-set, address,
  unlock_proc, unlock_wait,
}
use system_call_enhancement.Kernel.Proc.Locks.{
  locked_by, AllFree-get_elem?, lock_proc_lem, unlock_proc_lem,
}
use system_call_enhancement.Kernel.Proc.Alloc.{freeproc, cleared, free_pages}
use system_call_enhancement.Kernel.Proc.Exit.{reaped, reap, scan}

abbrev pub is_child : ℕ → Proc → Bool
is_child me p = same_proc p.parent (some me)

abbrev pub is_zombie : Proc → Bool
is_zombie p = same_state p.state ProcState.zombie

reaped_if :
    {W : Type 0} (b c : Bool) (x y z : ℤ × Kernel W)
    → (if b then ok (reaped x.0 x.1) else if c then ok (reaped y.0 y.1) else ok (reaped z.0 z.1))
      ≡ ok (reaped (if b then x else if c then y else z).0 (if b then x else if c then y else z).1)
reaped_if true c x y z = refl
reaped_if false true x y z = refl
reaped_if false false x y z = refl

module _ {W : Type 0} (s : Services W) (k : Kernel W) (h : Hart) (me : ℕ) (addr : ℕ) where
  -- `wait` behind its `acquire(&wait_lock)`
  abbrev pub waiting : Kernel W
  waiting = record k { hart = push_off h; wait_lock = held_by h.id k.wait_lock }

  -- The same with process i locked too.
  abbrev inspecting : ℕ → Proc → Kernel W
  inspecting i q = record waiting {
    hart = push_off (push_off h);
    table = set k.table i (locked_by (push_off h).id q);
  }

  scan_child :
      (n i : ℕ) (havekids : Bool) (p : Proc)
      → get_elem? k.table i ≡ some p
      → IsFree p.lock
      → is_child me p ≡ true
      → is_zombie p ≡ false
      → scan s addr me (suc n) i havekids waiting ≡ scan s addr me n (suc i) true waiting
  unfolding scan
  scan_child n i havekids p e free child alive = rw (
    deref_lem k.table i e,
    child,
    lock_proc_lem waiting i p free e,
    deref-set k.table i (locked_by (push_off h).id p) (lt-length_of_get_elem? k.table i e),
    alive,
    unlock_proc_lem (inspecting i p) i (push_off h) p (push_off-IsNested h) refl free (
        get_elem?-set_self k.table i (locked_by (push_off h).id p)
          (lt-length_of_get_elem? k.table i e)),
    settle-push_off h,
    set-set,
    set_of_get_elem? k.table i e,
  )

  scan_other :
      (n i : ℕ) (havekids : Bool) (p : Proc)
      → get_elem? k.table i ≡ some p
      → is_child me p ≡ false
      → scan s addr me (suc n) i havekids waiting ≡ scan s addr me n (suc i) havekids waiting
  unfolding scan
  scan_other n i havekids p e other = rw (deref_lem k.table i e, other)

  pub scan_zombie :
      (n i : ℕ) (havekids : Bool) (q : Proc)
      → get_elem? k.table i ≡ some q
      → IsFree q.lock
      → is_child me q ≡ true
      → is_zombie q ≡ true
      → scan s addr me (suc n) i havekids waiting
        ≡ reap s addr me i (locked_by (push_off h).id q) (inspecting i q)
  unfolding scan
  scan_zombie n i havekids q e free child dead = rw (
    deref_lem k.table i e,
    child,
    lock_proc_lem waiting i q free e,
    deref-set k.table i (locked_by (push_off h).id q) (lt-length_of_get_elem? k.table i e),
    dead,
  )

  -- d turns of the loop that meet no ZOMBIE child; `havekids` stays if they meet no child.
  pub scan_past :
      (m d n i : ℕ) (havekids : Bool)
      → m ≡ d + n
      → AllFree k.table
      → i + d ≤ length k.table
      → ((j : ℕ) (p : Proc)
          → j < i + d
          → get_elem? k.table j ≡ some p
          → (is_child me p && is_zombie p) ≡ false)
      → (b : Bool) × (scan s addr me m i havekids waiting ≡ scan s addr me n (i + d) b waiting)
        × (((j : ℕ) (p : Proc) → get_elem? k.table j ≡ some p → is_child me p ≡ false)
            → b ≡ havekids)
  scan_past m zero n i havekids eq free range quiet =
      let here : i + 0 ≡ i = omega arith in
      let same : m ≡ n = omega arith in
      (
        havekids,
        ap (λ c. scan s addr me c i havekids waiting) same
            ∙ ap (λ j. scan s addr me n j havekids waiting) (sym here),
        λ _. refl,
      )
  scan_past zero (suc d) n i havekids eq free range quiet = absurd (omega arith)
  scan_past (suc m) (suc d) n i havekids eq free range quiet =
      let (p, e) = get_elem?_of_lt k.table i (omega arith) in
      let calm = quiet i p (omega arith) e in
      let shift : suc i + d ≡ i + suc d = omega arith in
      elim (Bool-cases (is_child me p)) [
        | inl child ↦
            let (b, r, q) =
              scan_past m d n (suc i) true (omega arith) free (omega arith)
                (λ j p'. λ lt. quiet j p' (omega arith)) in
            (
              b,
              scan_child m i havekids p e (AllFree-get_elem? k.table i free e) child
                    (ground (arith, calm, child))
                  ∙ r
                  ∙ ap (λ j. scan s addr me n j b waiting) shift,
              λ none_mine. absurd (ground (arith, none_mine i p e, child)),
            )
        | inr other ↦
            let (b, r, q) =
              scan_past m d n (suc i) havekids (omega arith) free (omega arith)
                (λ j p'. λ lt. quiet j p' (omega arith)) in
            (
              b,
              scan_other m i havekids p e other ∙ r ∙ ap (λ j. scan s addr me n j b waiting) shift,
              q,
            )
      ]

  -- The kernel when `wait` has freed process i, which was q.
  abbrev pub freed : ℕ → Proc → W → Kernel W
  freed i q w = record k {
    hart = settle h;
    table = set k.table i (cleared s q);
    world = free_pages s q w;
  }

  -- What `wait` returns for the ZOMBIE child q, at index i, of the caller p: the child's pid, with
  -- the child freed, unless its exit status cannot be copied out to a nonzero address.
  abbrev pub answer : ℕ → Proc → Proc → ℤ × Kernel W
  answer i p q =
      let (copied, w) = s.copyout_int (address p.pagetable) addr q.xstate k.world in
      if addr == 0
      then (q.pid, freed i q k.world)
      else if copied
      then (q.pid, freed i q w)
      else (negsuc 0, record k { hart = settle h; world = w })

  -- `reap` on process i, for the caller p.
  module _ (i : ℕ) (p q : Proc) (n : IsNested h) (free : IsFree q.lock)
      (free_wait : IsFree k.wait_lock) (e : get_elem? k.table i ≡ some q)
      (mine : get_elem? k.table me ≡ some p) (others : me ≢ i) where
    caller_stays : get_elem? (inspecting i q).table me ≡ some p
    caller_stays =
        get_elem?-set_ne k.table {i = i} {j = me} (locked_by (push_off h).id q)
          (λ r. others (sym r))
        ∙ mine

    reap_end :
        (w : W)
        → (freeproc s i (record (inspecting i q) { world = w }) >>= λ k₁.
            unlock_proc i k₁ >>= λ k₂. unlock_wait k₂ >>= λ k₃. ok (reaped q.pid k₃))
          ≡ ok (reaped q.pid (freed i q w))
    unfolding freeproc free_pages unlock_wait
    reap_end w =
        let r = lt-length_of_get_elem? k.table i e in
        rw (
          deref-set k.table i (locked_by (push_off h).id q) r,
          set-set k.table i,
          unlock_proc_lem
              (record (inspecting i q) {
                table = set k.table i (locked_by (push_off h).id (cleared s q));
                world = free_pages s q w;
              })
              i (push_off h) (cleared s q) (push_off-IsNested h) refl free
              (get_elem?-set_self k.table i (locked_by (push_off h).id (cleared s q)) r),
          settle-push_off h,
          release-held_by k.wait_lock n free_wait,
          set-set,
        )

    pub reap_lem :
        reap s addr me i (locked_by (push_off h).id q) (inspecting i q)
        ≡ ok (reaped (answer i p q).0 (answer i p q).1)
    unfolding reap unlock_wait
    reap_lem =
        let r = lt-length_of_get_elem? k.table i e in
        let w = (s.copyout_int (address p.pagetable) addr q.xstate k.world).1 in
        rw
          (
            deref_lem (inspecting i q).table me caller_stays,
            reap_end k.world,
            reap_end w,
            unlock_proc_lem (record (inspecting i q) { world = w }) i (push_off h) q
                (push_off-IsNested h) refl free
                (get_elem?-set_self k.table i (locked_by (push_off h).id q) r),
            settle-push_off h,
            release-held_by k.wait_lock n free_wait,
            set-set k.table i,
            set_of_get_elem? k.table i e,
          )
          (reaped_if (addr == 0) (s.copyout_int (address p.pagetable) addr q.xstate k.world).0
            (q.pid, freed i q k.world) (q.pid, freed i q w)
            (negsuc 0, record k { hart = settle h; world = w }))
