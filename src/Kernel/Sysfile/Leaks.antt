-- ===== src/Kernel/Sysfile/Leaks.antt =====
-- `sys_pipe` of kernel/sysfile.c gives back what it took when it fails.
use system_call_enhancement.Base.{
  ℕ, zero, suc, ◌==◌, if◌then◌else◌, Bool, true, List, [], ◌∷◌, Option, none, some, get_elem?, set,
  set-set, set_of_get_elem?, get_elem?-set_self, get_elem?-set_ne, lt-length_of_get_elem?, All, ◌≡◌,
  ◌≢◌, refl, arith, ap, sym, ◌∙◌, Bool-cases, Option-cases, inl, inr,
}
use system_call_enhancement.Kernel.Pipe.{pipe_init}
use system_call_enhancement.Kernel.File.{State}
use system_call_enhancement.Kernel.File.Free.{IsFree}
use system_call_enhancement.Kernel.File.Pipealloc.{gave_up, made, pipealloc-Ended}
use system_call_enhancement.Kernel.Sysfile.{Ofile, find_fd, fdalloc, sys_pipe}
use system_call_enhancement.Kernel.Sysfile.Ends.{give_up-GaveBack, opened, GaveBack}

-- The descriptor that `fdalloc` gives was free.
find_fd-free : (ofile : Ofile) (fd : ℕ) → find_fd ofile ≡ some fd → get_elem? ofile fd ≡ some none
unfolding find_fd
find_fd-free [] fd e = absurd (ground (arith, e))
find_fd-free (none ∷ fs) zero e = refl
find_fd-free (none ∷ fs) (suc fd) e = absurd (ground (arith, e))
find_fd-free (some g ∷ fs) zero e = elim (Option-cases (find_fd fs)) [
  | inl n ↦ absurd (ground (arith, e, n))
  | inr (k, n) ↦ absurd (ground (arith, e, n))
]
find_fd-free (some g ∷ fs) (suc fd) e =
    let rest = find_fd-free fs in
    elim (Option-cases (find_fd fs)) [
      | inl n ↦ absurd (ground (arith, e, n))
      | inr (k, n) ↦
          let e₁ : some (suc k) ≡ some (suc fd) = rw n at e in
          let same : k ≡ fd = ground (arith, e₁) in rest fd (n ∙ ap (λ x. some x) same)
    ]

set_comm :
    (xs : Ofile) (i j : ℕ) (a b : Option ℕ) → i ≢ j → set (set xs i a) j b ≡ set (set xs j b) i a
set_comm [] i j a b h = refl
set_comm (x ∷ xs) zero zero a b h = absurd (h refl)
set_comm (x ∷ xs) zero (suc j) a b h = refl
set_comm (x ∷ xs) (suc i) zero a b h = refl
set_comm (x ∷ xs) (suc i) (suc j) a b h =
    ap (λ ys. x ∷ ys) (set_comm xs i j a b (λ e. h (ap suc e)))

-- Taking a descriptor back
set-free :
    (ofile : Ofile) (fd : ℕ) (f : Option ℕ)
    → get_elem? ofile fd ≡ some none
    → set (set ofile fd f) fd none ≡ ofile
set-free ofile fd f e = set-set ofile fd f none ∙ set_of_get_elem? ofile fd e

-- A descriptor that was given is not given again.
free-ne :
    (ofile : Ofile) (fd fd₁ f : ℕ)
    → get_elem? ofile fd ≡ some none
    → get_elem? (set ofile fd (some f)) fd₁ ≡ some none
    → fd ≢ fd₁
free-ne ofile fd fd₁ f e e₁ q =
    let here = get_elem?-set_self ofile fd (some f) (lt-length_of_get_elem? ofile fd e) in
    let both : some (some f) ≡ some none =
      sym here ∙ ap (get_elem? (set ofile fd (some f))) q ∙ e₁ in
    absurd (ground (arith, both))

fdalloc-some :
    (f : ℕ) (ofile : Ofile) {fd : ℕ}
    → find_fd ofile ≡ some fd
    → fdalloc f ofile ≡ some (fd, set ofile fd (some f))
unfolding fdalloc
fdalloc-some f ofile e = rw (fdalloc, e) refl

fdalloc-none : (f : ℕ) (ofile : Ofile) → find_fd ofile ≡ none → fdalloc f ofile ≡ none
unfolding fdalloc
fdalloc-none f ofile e = rw (fdalloc, e) refl

-- The state with a pipe that two files have open.
abbrev pub with_pipe : (junk : ℕ → ℕ) → (rf wf pi : ℕ) → List ℕ → State → State
with_pipe junk rf wf pi rest s = record s {
  files = opened rf wf pi s.files;
  pages = rest;
  pipes = λ a. if a == pi then pipe_init junk else s.pipes a;
}

-- How `sys_pipe` ends.
pub data Piped (copied : ℕ → ℕ → Bool) (junk : ℕ → ℕ) (ofile : Ofile) (s : State)
    (out : Option (Option ℕ × Ofile × State)) : Type 0 where
  fails : GaveBack ofile s out → Piped copied junk ofile s out
  works :
      (fd0 fd1 rf wf pi : ℕ) (rest : List ℕ)
      → copied fd0 fd1 ≡ true
      → get_elem? ofile fd0 ≡ some none
      → get_elem? ofile fd1 ≡ some none
      → fd0 ≢ fd1
      → rf ≢ wf
      → s.pages ≡ pi ∷ rest
      → out
        ≡ some (some 0, set (set ofile fd0 (some rf)) fd1 (some wf), with_pipe junk rf wf pi rest s)
      → Piped copied junk ofile s out

-- The table after both descriptors are taken back.
taken_back :
    (ofile : Ofile) (fd0 fd1 rf wf : ℕ)
    → get_elem? ofile fd0 ≡ some none
    → get_elem? ofile fd1 ≡ some none
    → fd0 ≢ fd1
    → set (set (set (set ofile fd0 (some rf)) fd1 (some wf)) fd0 none) fd1 none ≡ ofile
taken_back ofile fd0 fd1 rf wf e0 e1 h =
    ap (λ xs. set xs fd1 none)
      (set_comm (set ofile fd0 (some rf)) fd1 fd0 (some wf) none (λ q. h (sym q))
        ∙ ap (λ xs. set xs fd1 (some wf)) (set-free ofile fd0 (some rf) e0))
    ∙ set-free ofile fd1 (some wf) e1

-- When the file table is as for `pipealloc`, `sys_pipe` does not panic. Either it returns 0, and
-- two descriptors that were free stand for two different files, the ends of a new pipe on a free
-- page, the copies to the user's array having succeeded; or it returns -1, and then, whichever of
-- its steps failed, the process has the descriptors that it had, every file the references and the
-- type that it had, and the free pages are what they were.
pub sys_pipe-Piped :
    (copied : ℕ → ℕ → Bool) (junk : ℕ → ℕ) (ofile : Ofile) (s : State)
    → All IsFree s.files
    → Piped copied junk ofile s (sys_pipe copied junk ofile s)
unfolding sys_pipe
sys_pipe-Piped copied junk ofile s valid = elim (pipealloc-Ended junk s valid) [
  | gave_up _ e ↦
      fails (record { after = s; returns = rw (sys_pipe, e) refl; uses = refl; pages = refl })
  | made rf wf pi rest g0 g1 e0 r0 e1 r1 apart p e ↦
      let back = give_up-GaveBack junk s rf wf pi rest g0 g1 e0 r0 e1 r1 apart p valid ofile in
      elim (Option-cases (find_fd ofile)) [
        | inl n ↦ fails (rw (sys_pipe, e, fdalloc-none rf ofile n) back)
        | inr (fd0, n) ↦
            let free0 = find_fd-free ofile fd0 n in
            elim (Option-cases (find_fd (set ofile fd0 (some rf)))) [
              | inl n₁ ↦ fails (
                  rw
                    (
                      sys_pipe,
                      e,
                      fdalloc-some rf ofile {fd = fd0} n,
                      fdalloc-none wf (set ofile fd0 (some rf)) n₁,
                      set-free ofile fd0 (some rf) free0,
                    )
                    back)
              | inr (fd1, n₁) ↦
                  let after = find_fd-free (set ofile fd0 (some rf)) fd1 n₁ in
                  let other = free-ne ofile fd0 fd1 rf free0 after in
                  let free1 =
                    sym (get_elem?-set_ne ofile {i = fd0} {j = fd1} (some rf) other) ∙ after in
                  let first = fdalloc-some rf ofile {fd = fd0} n in
                  let second = fdalloc-some wf (set ofile fd0 (some rf)) {fd = fd1} n₁ in
                  elim (Bool-cases (copied fd0 fd1)) [
                    | inl c ↦
                        works fd0 fd1 rf wf pi rest c free0 free1 other apart p
                          (rw (sys_pipe, e, first, second, c) refl)
                    | inr c ↦ fails (
                        rw
                          (
                            sys_pipe,
                            e,
                            first,
                            second,
                            c,
                            taken_back ofile fd0 fd1 rf wf free0 free1 other,
                          )
                          back)
                  ]
            ]
      ]
]
