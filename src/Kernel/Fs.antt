-- ===== src/Kernel/Fs.antt =====
-- The allocator of disk blocks in kernel/fs.c. A block is 1024 bytes, which the code reads as bytes,
-- as 256 words if it is an indirect block, or as inodes; `Disk` keeps these readings of what
-- `bread` returns, with what the running transaction has written, and the blocks given to
-- `log_write`, in their order. What `log_write` does with a block is the matter of Kernel.Log, and
-- which buffer holds it that of Kernel.Bio.
pub mod Bits
pub mod Free
pub mod Balloc
pub mod Inode
pub mod Itable
pub mod Bmap
pub mod Iget
pub mod Content
pub mod Read
mod Tests
use system_call_enhancement.Base.{
  ℕ, zero, suc, ◌+◌, ◌-◌, ◌*◌, ◌/◌, ◌%◌, ◌^◌, ◌==◌, ltb, if◌then◌else◌, Bool, true, false, not,
  ◌&&◌, List, [], ◌∷◌, ◌++◌, Option, none, some,
}
use system_call_enhancement.Base.Bits.{bit}

-- The fields of `struct superblock` that these functions read
pub record Superblock : Type 0 where
  pub size : ℕ
  pub ninodes : ℕ
  pub inodestart : ℕ
  pub bmapstart : ℕ

-- `struct dinode`
pub record Dinode : Type 0 where
  pub type_ : ℕ
  pub major : ℕ
  pub minor : ℕ
  pub nlink : ℕ
  pub size : ℕ
  pub addrs : ℕ → ℕ

-- `dinodes` is by inode number.
pub record Disk : Type 0 where
  pub bytes : (block i : ℕ) → ℕ
  pub words : (block i : ℕ) → ℕ
  pub dinodes : ℕ → Dinode
  pub logged : List ℕ

-- `BPB`
abbrev pub bpb : ℕ
bpb = 8192

-- `BBLOCK`
abbrev pub bblock : ℕ → Superblock → ℕ
bblock b sb = b / bpb + sb.bmapstart

abbrev pub log_write : ℕ → Disk → Disk
log_write b d = record d { logged = d.logged ++ (b ∷ []) }

-- `bzero`
unfoldable pub bzero : ℕ → Disk → Disk
bzero bno d = log_write bno (record d {
  bytes = λ b i. if b == bno then 0 else d.bytes b i;
  words = λ b i. if b == bno then 0 else d.words b i;
})

abbrev pub store_byte : (block i v : ℕ) → Disk → Disk
store_byte block i v d = record d { bytes = λ b j. if b == block && j == i then v else d.bytes b j }

-- The inner loop of `balloc`, n turns from bi on, in the block of the bitmap for b
unfoldable pub find_bit : (n bi b : ℕ) → Superblock → Disk → Option ℕ
find_bit zero bi b sb d = none
find_bit (suc n) bi b sb d =
    let next = find_bit n (bi + 1) b sb d in
    if not (ltb (b + bi) sb.size)
    then none
    else if bit (bi % 8) (d.bytes (bblock b sb) (bi / 8))
    then next
    else some bi

-- What `balloc` does with the bit that it found. `data[bi/8] |= m` adds the bit, which is clear.
unfoldable pub take_bit : (b bi : ℕ) → Superblock → Disk → Disk
take_bit b bi sb d =
    let map = bblock b sb in
    bzero (b + bi) (log_write map (store_byte map (bi / 8) (d.bytes map (bi / 8) + 2 ^ (bi % 8)) d))

-- n turns of the outer loop from b on: the block, or 0
unfoldable pub balloc_from : (n b : ℕ) → Superblock → Disk → ℕ × Disk
balloc_from zero b sb d = (0, d)
balloc_from (suc n) b sb d = elim (find_bit bpb 0 b sb d) [
  | some bi ↦ (b + bi, take_bit b bi sb d)
  | none ↦ balloc_from n (b + bpb) sb d
]

unfoldable pub balloc : Superblock → Disk → ℕ × Disk
balloc sb d = balloc_from ((sb.size + bpb - 1) / bpb) 0 sb d

-- `bfree`: `none` is a panic. `data[bi/8] &= ~m` takes the bit away, which is set.
unfoldable pub bfree : ℕ → Superblock → Disk → Option Disk
bfree b sb d =
    let map = bblock b sb in
    let bi = b % bpb in
    let byte = d.bytes map (bi / 8) in
    if not (bit (bi % 8) byte)
    then none
    else some (log_write map (store_byte map (bi / 8) (byte - 2 ^ (bi % 8)) d))
