-- ===== src/Kernel/Pipe/Queue.antt =====
-- What kernel/pipe.c promises: a pipe is a queue of at most `PIPESIZE` bytes.
use system_call_enhancement.Base.{
  ℕ, zero, suc, ◌+◌, ◌==◌, if◌then◌else◌, Bool, not, ◌&&◌, ◌||◌, List, [], ◌∷◌, ◌++◌, length,
  Option, none, some,
}
use system_call_enhancement.Kernel.Pipe.{
  pipesize, Channel, on_nread, on_nwrite, Outcome, returned, failed, asleep,
}

pub record Queue : Type 0 where
  pub items : List ℕ
  pub readopen : Bool
  pub writeopen : Bool
  pub woken : List Channel

abbrev pub wake : Channel → Queue → Queue
wake c q = record q { woken = q.woken ++ (c ∷ []) }

abbrev pub append : ℕ → Queue → Queue
append ch q = record q { items = q.items ++ (ch ∷ []) }

-- Bytes go in at the end, while there is room.
unfoldable pub put :
    (copyin : ℕ → Option ℕ) → (killed : ℕ → Bool) → (addr left i : ℕ) → Queue → Outcome Queue
put copyin killed addr zero i q = returned i (wake on_nread q)
put copyin killed addr (suc left) i q =
    if not q.readopen || killed i
    then failed q
    else if length q.items == pipesize
    then asleep i (wake on_nread q)
    else elim (copyin (addr + i)) [
      | none ↦ returned i (wake on_nread q)
      | some ch ↦ put copyin killed addr left (suc i) (append ch q)
    ]

module _ {ℓ} {M : Type ℓ} (copyout : ℕ → ℕ → M → Option M) where
  -- Bytes come out at the front, the one that could not be copied too.
  unfoldable pub take_out : (addr left i : ℕ) → List ℕ → M → ℕ × List ℕ × M
  take_out addr zero i items m = (i, items, m)
  take_out addr (suc left) i [] m = (i, [], m)
  take_out addr (suc left) i (ch ∷ items) m = elim (copyout (addr + i) ch m) [
    | none ↦ (i, items, m)
    | some m₁ ↦ take_out addr left (suc i) items m₁
  ]

  unfoldable pub get : (killed : Bool) → (addr n : ℕ) → Queue → M → Outcome (Queue × M)
  get killed addr n q m =
      if length q.items == 0 && q.writeopen
      then (if killed then failed (q, m) else asleep 0 (q, m))
      else let (i, items, m₁) = take_out addr n 0 q.items m in
        returned i (wake on_nwrite (record q { items = items }), m₁)
