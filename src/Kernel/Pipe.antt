-- ===== src/Kernel/Pipe.antt =====
-- kernel/pipe.c. Each function holds `pi->lock` from its start, or from where it wakes up, to where
-- it returns or goes to sleep: such a stretch is one run of a function here. `copyin`, `copyout`
-- and `killed` are arguments.
pub mod Queue
pub mod Refinement
pub mod Wakeup
mod Tests
use system_call_enhancement.Base.{
  ℕ, zero, suc, ◌+◌, ◌-◌, ◌%◌, ◌==◌, if◌then◌else◌, Bool, true, false, not, ◌&&◌, ◌||◌, List, [],
  ◌∷◌, ◌++◌, Option, none, some,
}

abbrev pub pipesize : ℕ
pipesize = 512

-- `uint` counts modulo 2^32.
abbrev pub uint : ℕ → ℕ
uint n = n % 4294967296

-- The addresses that processes sleep on
pub data Channel : Type 0 where
  on_nread on_nwrite : Channel

-- `struct pipe`, less its lock, and the calls of `wakeup`, in their order.
pub record Pipe : Type 0 where
  pub data_ : ℕ → ℕ
  pub nread : ℕ
  pub nwrite : ℕ
  pub readopen : Bool
  pub writeopen : Bool
  pub woken : List Channel

abbrev pub wakeup : Channel → Pipe → Pipe
wakeup c pi = record pi { woken = pi.woken ++ (c ∷ []) }

-- The pipe that `pipealloc` makes of a page.
abbrev pub pipe_init : (ℕ → ℕ) → Pipe
pipe_init page = record {
  data_ = page;
  nread = 0;
  nwrite = 0;
  readopen = true;
  writeopen = true;
  woken = [];
}

-- `pi->data[pi->nwrite++ % PIPESIZE] = ch`
abbrev pub push : ℕ → Pipe → Pipe
push ch pi = record pi {
  data_ = λ k. if k == pi.nwrite % pipesize then ch else pi.data_ k;
  nwrite = uint (pi.nwrite + 1);
}

-- `pi->nread++`
abbrev pub pop : Pipe → Pipe
pop pi = record pi { nread = uint (pi.nread + 1) }

-- How a stretch ends: with the function's result, with -1, or asleep; `asleep i` goes on at i.
pub data Outcome {ℓ} (S : Type ℓ) : Type ℓ where
  returned : ℕ → S → Outcome S
  failed : S → Outcome S
  asleep : ℕ → S → Outcome S

-- The loop of `pipewrite` at i, with `left` = n - i.
unfoldable pub write_from :
    (copyin : ℕ → Option ℕ) → (killed : ℕ → Bool) → (addr left i : ℕ) → Pipe → Outcome Pipe
write_from copyin killed addr zero i pi = returned i (wakeup on_nread pi)
write_from copyin killed addr (suc left) i pi =
    if not pi.readopen || killed i
    then failed pi
    else if pi.nwrite == uint (pi.nread + pipesize)
    then asleep i (wakeup on_nread pi)
    else elim (copyin (addr + i)) [
      | none ↦ returned i (wakeup on_nread pi)
      | some ch ↦ write_from copyin killed addr left (suc i) (push ch pi)
    ]

unfoldable pub pipewrite :
    (copyin : ℕ → Option ℕ) → (killed : ℕ → Bool) → (addr n : ℕ) → Pipe → Outcome Pipe
pipewrite copyin killed addr n pi = write_from copyin killed addr n 0 pi

module _ {ℓ} {M : Type ℓ} (copyout : ℕ → ℕ → M → Option M) where
  -- The loop of `piperead` at i, with `left` = n - i, on the user's memory.
  unfoldable pub read_from : (addr left i : ℕ) → Pipe → M → ℕ × Pipe × M
  read_from addr zero i pi m = (i, pi, m)
  read_from addr (suc left) i pi m =
      if pi.nread == pi.nwrite
      then (i, pi, m)
      else elim (copyout (addr + i) (pi.data_ (pi.nread % pipesize)) m) [
        | none ↦ (i, pop pi, m)
        | some m₁ ↦ read_from addr left (suc i) (pop pi) m₁
      ]

  unfoldable pub piperead : (killed : Bool) → (addr n : ℕ) → Pipe → M → Outcome (Pipe × M)
  piperead killed addr n pi m =
      if pi.nread == pi.nwrite && pi.writeopen
      then (if killed then failed (pi, m) else asleep 0 (pi, m))
      else let (i, pi₁, m₁) = read_from addr n 0 pi m in returned i (wakeup on_nwrite pi₁, m₁)

-- The flag tells whether the pipe's page goes to `kfree`.
unfoldable pub pipeclose : (writable : Bool) → Pipe → Pipe × Bool
pipeclose writable pi =
    let pi₁ =
      if writable
      then wakeup on_nread (record pi { writeopen = false })
      else wakeup on_nwrite (record pi { readopen = false }) in
    (pi₁, not pi₁.readopen && not pi₁.writeopen)
