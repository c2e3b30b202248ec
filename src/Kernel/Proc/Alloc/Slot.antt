-- ===== src/Kernel/Proc/Alloc/Slot.antt =====
-- The slot that `allocproc` of kernel/proc.c takes, and `allocpid`.
use system_call_enhancement.Base.{
  ℕ, zero, suc, ◌+◌, if◌then◌else◌, Option, none, some, List, [], ◌∷◌, get_elem?, set, ◌≡◌, refl,
  ◌≢◌, arith,
}
use mathlib.Core.Option
use system_call_enhancement.Base.Int.{pos, ◌+ℤ◌}
use system_call_enhancement.Kernel.Spinlock.{ok, ◌>>=◌, Hart, acquire, release, push_off}
use system_call_enhancement.Kernel.Spinlock.Nesting.{
  IsNested, IsFree, settle, settle-IsNested, settle-settle, push_off-settle,
}
use system_call_enhancement.Kernel.Proc.{AllFree, ProcState, Proc, Kernel, same_state}
use system_call_enhancement.Kernel.Proc.Locks.{locked_by}
use system_call_enhancement.Kernel.Proc.Alloc.{allocpid, find_unused}

-- The index of the first UNUSED process.
unfoldable pub first_unused : List Proc → Option ℕ
first_unused [] = none
first_unused (p ∷ ps) =
    if same_state p.state ProcState.unused then some 0 else Option.map suc (first_unused ps)

find_unused-cons :
    (i : ℕ) {h : Hart} (p : Proc) (ps : List Proc)
    → IsNested h
    → IsFree p.lock
    → find_unused i h (p ∷ ps) ≡ (
        if same_state p.state ProcState.unused
        then ok (some i, push_off h, locked_by h.id p ∷ ps)
        else (find_unused (suc i) (settle h) ps >>= λ (r, h', ps'). ok (r, h', p ∷ ps')))
unfolding find_unused acquire release
find_unused-cons i {h} p ps n free = ground (arith, n.off)

find_unused-none :
    (i : ℕ) {h : Hart} (p : Proc) (ps : List Proc)
    → IsNested h
    → AllFree (p ∷ ps)
    → first_unused (p ∷ ps) ≡ none
    → find_unused i h (p ∷ ps) ≡ ok (none, settle h, p ∷ ps)
unfolding first_unused find_unused
find_unused-none i {h} p [] n free e = rw (find_unused-cons i p [] n free.0) (ground arith)
find_unused-none i {h} p (q ∷ ps) n free e = rw (find_unused-cons i p (q ∷ ps) n free.0) (
    ground (
      arith,
      find_unused-none (suc i) {h = settle h} q ps (settle-IsNested n) free.1,
      settle-settle h,
    ))

pub find_unused-some :
    (i j : ℕ) {h : Hart} (ps : List Proc) {q : Proc}
    → IsNested h
    → AllFree ps
    → first_unused ps ≡ some j
    → get_elem? ps j ≡ some q
    → find_unused i h ps ≡ ok (some (i + j), push_off h, set ps j (locked_by h.id q))
unfolding first_unused
find_unused-some i j {h} [] n free e g = absurd (ground arith)
find_unused-some i zero {h} (p ∷ ps) {q} n free e g =
    rw (find_unused-cons i p ps n free.0) (ground arith)
find_unused-some i (suc j) {h} (p ∷ ps) {q} n free e g = rw (find_unused-cons i p ps n free.0) (
    ground (
      arith,
      find_unused-some (suc i) j {h = settle h} ps {q = q} (settle-IsNested n) free.1,
      push_off-settle h,
    ))

pub find_unused_table :
    {h : Hart} (ps : List Proc)
    → IsNested h
    → AllFree ps
    → ps ≢ []
    → first_unused ps ≡ none
    → find_unused 0 h ps ≡ ok (none, settle h, ps)
find_unused_table [] n free some_proc e = absurd (some_proc refl)
find_unused_table (p ∷ ps) n free some_proc e = find_unused-none 0 p ps n free e

pub allocpid_lem :
    {W : Type 0} (k : Kernel W)
    → IsNested k.hart
    → IsFree k.pid_lock
    → allocpid k ≡ ok (k.nextpid, record k { hart = settle k.hart; nextpid = k.nextpid +ℤ pos 1 })
unfolding allocpid acquire release
allocpid_lem k n free = ground (arith, n.off)
