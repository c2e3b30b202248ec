-- ===== src/Kernel/Log.antt =====
-- kernel/log.c. A block is its 256 words of 32 bits, and `struct logheader` lies in the words of
-- the header block: n, then the block numbers. Each function that takes `log.lock` is one critical
-- section; a function that sleeps with it comes back to the start of its loop, so that
-- `wakeup(&log)` changes no state here.
pub mod Writes
pub mod Recovery
pub mod Commit
pub mod Prefix
pub mod Crash
pub mod Budgets
pub mod Reserve
mod Tests
use system_call_enhancement.Base.{
  ℕ, zero, suc, ◌+◌, ◌-◌, ◌*◌, ◌==◌, ltb, leb, if◌then◌else◌, Bool, true, false, ◌||◌, List, [],
  ◌∷◌, ◌++◌, length, Option, none, some,
}

abbrev pub Block : Type 0
Block = ℕ → ℕ

abbrev pub Blocks : Type 0
Blocks = ℕ → Block

-- `MAXOPBLOCKS` and `LOGSIZE`
abbrev pub max_op_blocks : ℕ
max_op_blocks = 10

abbrev pub log_size : ℕ
log_size = 30

-- `struct log`; `blocks` are the `lh.n` entries of `lh.block` in use.
pub record Log : Type 0 where
  pub start : ℕ
  pub size : ℕ
  pub outstanding : ℕ
  pub committing : Bool
  pub blocks : List ℕ

-- What the functions share: `contents` is the data of the buffer that `bread` returns for a block,
-- `pins` counts its `bpin`s, and `writes` are the blocks that `bwrite` has sent to the disk.
pub record State : Type 0 where
  pub log : Log
  pub contents : Blocks
  pub pins : ℕ → ℕ
  pub writes : List (ℕ × Block)

abbrev pub update {ℓ} : {A : Type ℓ} → (ℕ → A) → ℕ → A → ℕ → A
update f b v a = if b == a then v else f a

-- `memmove(to->data, from->data, BSIZE)` into block b
abbrev pub fill : ℕ → Block → State → State
fill b v s = record s { contents = update s.contents b v }

abbrev pub bwrite : ℕ → State → State
bwrite b s = record s { writes = s.writes ++ ((b, s.contents b) ∷ []) }

abbrev pub bpin : ℕ → State → State
bpin b s = record s { pins = update s.pins b (s.pins b + 1) }

abbrev pub bunpin : ℕ → State → State
bunpin b s = record s { pins = update s.pins b (s.pins b - 1) }

-- The loop of `install_trans` over the rest of the header, from `tail` on.
unfoldable pub install_from : (recovering : Bool) → (tail : ℕ) → List ℕ → State → State
install_from recovering tail [] s = s
install_from recovering tail (b ∷ bs) s =
    let s₁ = bwrite b (fill b (s.contents (s.log.start + tail + 1)) s) in
    install_from recovering (suc tail) bs (if recovering then s₁ else bunpin b s₁)

unfoldable pub install_trans : Bool → State → State
install_trans recovering s = install_from recovering 0 s.log.blocks s

-- n block numbers in the words of a header block from word i on.
unfoldable pub read_blocks : (n i : ℕ) → Block → List ℕ
read_blocks zero i lh = []
read_blocks (suc n) i lh = lh i ∷ read_blocks n (suc i) lh

unfoldable pub read_head : State → State
read_head s =
    let lh = s.contents s.log.start in
    record s { log = record s.log { blocks = read_blocks (lh 0) 1 lh } }

unfoldable pub store_blocks : (i : ℕ) → List ℕ → Block → Block
store_blocks i [] hb = hb
store_blocks i (b ∷ bs) hb = store_blocks (suc i) bs (update hb i b)

abbrev pub head_block : List ℕ → Block → Block
head_block bs hb = store_blocks 1 bs (update hb 0 (length bs))

unfoldable pub write_head : State → State
write_head s = let b = s.log.start in bwrite b (fill b (head_block s.log.blocks (s.contents b)) s)

abbrev pub clear_blocks : State → State
clear_blocks s = record s { log = record s.log { blocks = [] } }

unfoldable pub recover_from_log : State → State
recover_from_log s = write_head (clear_blocks (install_trans true (read_head s)))

-- The loop of `write_log`, from `tail` on.
unfoldable pub write_log_from : (tail : ℕ) → List ℕ → State → State
write_log_from tail [] s = s
write_log_from tail (b ∷ bs) s =
    let to = s.log.start + tail + 1 in
    write_log_from (suc tail) bs (bwrite to (fill to (s.contents b) s))

unfoldable pub write_log : State → State
write_log s = write_log_from 0 s.log.blocks s

unfoldable pub commit : State → State
commit s =
    if length s.log.blocks == 0
    then s
    else write_head (clear_blocks (install_trans false (write_head (write_log s))))

-- `begin_op`: `none` where it goes to sleep and tries again.
unfoldable pub begin_op : State → Option State
begin_op s =
    if s.log.committing
      || ltb log_size (length s.log.blocks + (s.log.outstanding + 1) * max_op_blocks)
    then none
    else some (record s { log = record s.log { outstanding = s.log.outstanding + 1 } })

-- The first critical section of `end_op`, where some operation is outstanding: `none` is a panic,
-- and the flag is `do_commit`.
unfoldable pub leave_op : State → Option (Bool × State)
leave_op s =
    let last = s.log.outstanding == 1 in
    if s.log.committing
    then none
    else some (
      last,
      record s { log = record s.log { outstanding = s.log.outstanding - 1; committing = last } },
    )

-- `end_op` behind it, for `do_commit`.
unfoldable pub finish_commit : State → State
finish_commit s = let s₁ = commit s in record s₁ { log = record s₁.log { committing = false } }

unfoldable pub end_op : State → Option State
end_op s = elim (leave_op s) [
  | none ↦ none
  | some (do_commit, s₁) ↦ some (if do_commit then finish_commit s₁ else s₁)
]

abbrev pub is_logged : ℕ → List ℕ → Bool
is_logged b [] = false
is_logged b (c ∷ cs) = c == b || is_logged b cs

-- `log_write` of the buffer of block b: `none` is a panic.
unfoldable pub log_write : ℕ → State → Option State
log_write b s =
    let n = length s.log.blocks in
    if leb log_size n || leb (s.log.size - 1) n
    then none
    else if ltb s.log.outstanding 1
    then none
    else if is_logged b s.log.blocks
    then some s
    else some (record (bpin b s) { log = record s.log { blocks = s.log.blocks ++ (b ∷ []) } })
