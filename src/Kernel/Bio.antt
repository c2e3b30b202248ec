-- ===== src/Kernel/Bio.antt =====
-- kernel/bio.c. The buffers are a list, the most recently used first: that is `bcache.head.next`
-- and what its `next` fields lead to, and their `prev` fields lead back. A buffer is known by its
-- place in the array `bcache.buf`, its `slot`. `bcache.lock` makes one step of each look at the
-- list; the sleep lock of the buffer that `bget` returns is taken behind it.
pub mod Unique
mod Tests
use system_call_enhancement.Base.{
  ℕ, zero, suc, ◌+◌, ◌%◌, ◌==◌, if◌then◌else◌, Bool, true, false, not, ◌&&◌, ◌||◌, List, [], ◌∷◌,
  ◌++◌, Option, none, some,
}

-- `NBUF`
abbrev pub nbuf : ℕ
nbuf = 30

-- `struct buf`, less its data and its lock.
pub record Buf : Type 0 where
  pub slot : ℕ
  pub dev : ℕ
  pub blockno : ℕ
  pub valid : Bool
  pub refcnt : ℕ

-- The loop of `binit` over n buffers from slot i on; each goes to the front.
unfoldable pub binit_from : (n i : ℕ) → List Buf → List Buf
binit_from zero i bs = bs
binit_from (suc n) i bs =
    binit_from n (suc i) (record { slot = i; dev = 0; blockno = 0; valid = false; refcnt = 0 } ∷ bs)

unfoldable pub binit : List Buf
binit = binit_from nbuf 0 []

abbrev pub is_block : (dev blockno : ℕ) → Buf → Bool
is_block dev blockno b = b.dev == dev && b.blockno == blockno

-- `b->refcnt++`, of a `uint`
abbrev pub add_ref : Buf → Buf
add_ref b = record b { refcnt = (b.refcnt + 1) % 4294967296 }

-- A buffer that the list's loop picks out, and the list with it changed.
abbrev pub Picked : Type 0
Picked = Option (ℕ × List Buf)

abbrev behind : Buf → Picked → Picked
behind b none = none
behind b (some (i, bs)) = some (i, b ∷ bs)

-- The first loop of `bget`, from the front.
unfoldable pub find_cached : (dev blockno : ℕ) → List Buf → Picked
find_cached dev blockno [] = none
find_cached dev blockno (b ∷ bs) =
    let next = find_cached dev blockno bs in
    if is_block dev blockno b then some (b.slot, add_ref b ∷ bs) else behind b next

-- The second one, from the back.
unfoldable pub recycle : (dev blockno : ℕ) → List Buf → Picked
recycle dev blockno [] = none
recycle dev blockno (b ∷ bs) = elim (recycle dev blockno bs) [
  | some (i, cs) ↦ some (i, b ∷ cs)
  | none ↦
      if b.refcnt == 0
      then some (b.slot, record b { dev = dev; blockno = blockno; valid = false; refcnt = 1 } ∷ bs)
      else none
]

-- `bget`: the slot of the buffer, or `none` for a panic.
unfoldable pub bget : (dev blockno : ℕ) → List Buf → Picked
bget dev blockno bs = elim (find_cached dev blockno bs) [
  | some found ↦ some found
  | none ↦ recycle dev blockno bs
]

-- The list without the buffer of a slot
abbrev pub unlink : ℕ → List Buf → List Buf
unlink i [] = []
unlink i (b ∷ bs) = if b.slot == i then bs else b ∷ unlink i bs

abbrev pub change : (Buf → Buf) → ℕ → List Buf → List Buf
change g i [] = []
change g i (b ∷ bs) = if b.slot == i then g b ∷ bs else b ∷ change g i bs

abbrev pub find_slot : ℕ → List Buf → Option Buf
find_slot i [] = none
find_slot i (b ∷ bs) = let next = find_slot i bs in if b.slot == i then some b else next

-- `b->refcnt--`
abbrev pub drop_ref : Buf → Buf
drop_ref b = record b { refcnt = (b.refcnt + 4294967295) % 4294967296 }

-- `brelse` of the buffer of a slot, where `held` is what `holdingsleep` says of its lock: `none` is
-- a panic, or a pointer that is not into `bcache.buf`.
unfoldable pub brelse : (held : Bool) → ℕ → List Buf → Option (List Buf)
brelse held i bs = elim (find_slot i bs) [
  | none ↦ none
  | some b ↦
      let rest =
        if (drop_ref b).refcnt == 0 then drop_ref b ∷ unlink i bs else change drop_ref i bs in
      if held then some rest else none
]

unfoldable pub bpin : ℕ → List Buf → List Buf
bpin i bs = change add_ref i bs

unfoldable pub bunpin : ℕ → List Buf → List Buf
bunpin i bs = change drop_ref i bs
