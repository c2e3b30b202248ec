-- ===== src/Kernel/Fs/Inode.antt =====
-- Inodes of kernel/fs.c: their content (`bmap`, `itrunc`, `readi`, `writei`) and their copies on the
-- disk (`ialloc`, `iupdate`). The inode's sleep lock, which every caller holds, makes one step of
-- each.
use system_call_enhancement.Base.{
  ℕ, zero, suc, ◌+◌, ◌-◌, ◌/◌, ◌==◌, ltb, if◌then◌else◌, Bool, true, false, not, ◌&&◌, Option, none,
  some,
}
use system_call_enhancement.Kernel.Fs.{Superblock, Dinode, Disk, log_write, balloc, bfree}

-- `struct inode` of kernel/file.h, less its lock
pub record Inode : Type 0 where
  pub dev : ℕ
  pub inum : ℕ
  pub ref : ℕ
  pub valid : Bool
  pub copy : Dinode

-- `NDIRECT`, `NINDIRECT`, `BSIZE` and `IPB`
abbrev pub n_direct : ℕ
n_direct = 12

abbrev pub n_indirect : ℕ
n_indirect = 256

abbrev pub b_size : ℕ
b_size = 1024

-- `IBLOCK`: a block holds 16 inodes.
abbrev pub iblock : ℕ → Superblock → ℕ
iblock i sb = i / 16 + sb.inodestart

abbrev pub set_addr : (i a : ℕ) → Dinode → Dinode
set_addr i a dip = record dip { addrs = λ j. if j == i then a else dip.addrs j }

abbrev pub store_word : (block i v : ℕ) → Disk → Disk
store_word block i v d = record d { words = λ b j. if b == block && j == i then v else d.words b j }

-- The part of `bmap` behind a block that it may have to allocate: the address, 0 for a full disk.
unfoldable pub addr_at : (i : ℕ) → Superblock → Dinode → Disk → ℕ × Dinode × Disk
addr_at i sb dip d =
    let (b, d₁) = balloc sb d in
    if not (dip.addrs i == 0)
    then (dip.addrs i, dip, d)
    else if b == 0
    then (0, dip, d₁)
    else (b, set_addr i b dip, d₁)

-- The word bn of the indirect block at addr
unfoldable pub word_at : (addr bn : ℕ) → Superblock → Disk → ℕ × Disk
word_at addr bn sb d =
    let (b, d₁) = balloc sb d in
    if not (d.words addr bn == 0)
    then (d.words addr bn, d)
    else if b == 0
    then (0, d₁)
    else (b, log_write addr (store_word addr bn b d₁))

-- The end of `bmap` for word bn of the indirect block that the first address leads to
unfoldable pub indirect : (bn : ℕ) → Superblock → ℕ × Dinode × Disk → Option (ℕ × Dinode × Disk)
indirect bn sb (addr, dip, d) =
    if addr == 0 then some (0, dip, d) else let (b, d₁) = word_at addr bn sb d in some (b, dip, d₁)

-- `bmap`: `none` is a panic.
unfoldable pub bmap : (bn : ℕ) → Superblock → Dinode → Disk → Option (ℕ × Dinode × Disk)
bmap bn sb dip d =
    if ltb bn n_direct
    then some (addr_at bn sb dip d)
    else if not (ltb (bn - n_direct) n_indirect)
    then none
    else indirect (bn - n_direct) sb (addr_at n_direct sb dip d)

-- `iupdate`
unfoldable pub iupdate : (inum : ℕ) → Superblock → Dinode → Disk → Disk
iupdate inum sb dip d =
    log_write (iblock inum sb) (record d { dinodes = λ i. if i == inum then dip else d.dinodes i })

-- n turns of the first loop of `itrunc`, from address i on
unfoldable pub free_direct : (n i : ℕ) → Superblock → Dinode → Disk → Option (Dinode × Disk)
free_direct zero i sb dip d = some (dip, d)
free_direct (suc n) i sb dip d = elim (dip.addrs i == 0) [
  | true ↦ free_direct n (i + 1) sb dip d
  | false ↦ elim (bfree (dip.addrs i) sb d) [
    | none ↦ none
    | some d₁ ↦ free_direct n (i + 1) sb (set_addr i 0 dip) d₁
  ]
]

-- The loop over the words of the indirect block
unfoldable pub free_words : (n j addr : ℕ) → Superblock → Disk → Option Disk
free_words zero j addr sb d = some d
free_words (suc n) j addr sb d = elim (d.words addr j == 0) [
  | true ↦ free_words n (j + 1) addr sb d
  | false ↦ elim (bfree (d.words addr j) sb d) [
    | none ↦ none
    | some d₁ ↦ free_words n (j + 1) addr sb d₁
  ]
]

unfoldable pub free_indirect : Superblock → Dinode → Disk → Option (Dinode × Disk)
free_indirect sb dip d =
    let addr = dip.addrs n_direct in
    elim (addr == 0) [
      | true ↦ some (dip, d)
      | false ↦ elim (free_words n_indirect 0 addr sb d) [
        | none ↦ none
        | some d₁ ↦ elim (bfree addr sb d₁) [
          | none ↦ none
          | some d₂ ↦ some (set_addr n_direct 0 dip, d₂)
        ]
      ]
    ]

-- `itrunc`: `none` is a panic of `bfree`.
unfoldable pub itrunc : (inum : ℕ) → Superblock → Dinode → Disk → Option (Dinode × Disk)
itrunc inum sb dip d = elim (free_direct n_direct 0 sb dip d) [
  | none ↦ none
  | some (dip₁, d₁) ↦ elim (free_indirect sb dip₁ d₁) [
    | none ↦ none
    | some (dip₂, d₂) ↦
        let empty : Dinode = record dip₂ { size = 0 } in some (empty, iupdate inum sb empty d₂)
  ]
]

-- The loop of `ialloc`, n turns from inum on
unfoldable pub ialloc_from : (n inum type_ : ℕ) → Superblock → Disk → Option (ℕ × Disk)
ialloc_from zero inum type_ sb d = none
ialloc_from (suc n) inum type_ sb d =
    let next = ialloc_from n (inum + 1) type_ sb d in
    let fresh : Dinode = record {
      type_ = type_;
      major = 0;
      minor = 0;
      nlink = 0;
      size = 0;
      addrs = λ _. 0;
    } in
    if (d.dinodes inum).type_ == 0 then some (inum, iupdate inum sb fresh d) else next

-- The number of the inode for which `ialloc` calls `iget`, `none` for 0
unfoldable pub ialloc : (type_ : ℕ) → Superblock → Disk → Option (ℕ × Disk)
ialloc type_ sb d = ialloc_from (sb.ninodes - 1) 1 type_ sb d
