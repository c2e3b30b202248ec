-- ===== src/Kernel/Fs/Itable.antt =====
-- The table of inodes in memory, `itable` of kernel/fs.c. A pointer to an inode is its index;
-- `itable.lock` makes one step of each look at the table.
use system_call_enhancement.Base.{
  ℕ, zero, suc, ◌+◌, ◌-◌, ◌==◌, ltb, if◌then◌else◌, Bool, true, false, not, ◌&&◌, List, [], ◌∷◌,
  Option, none, some, get_elem?, set,
}
use system_call_enhancement.Kernel.Fs.{Superblock, Dinode, Disk}
use system_call_enhancement.Kernel.Fs.Inode.{Inode, iupdate, itrunc}

abbrev pub is_inode : (dev inum : ℕ) → Inode → Bool
is_inode dev inum ip = ltb 0 ip.ref && (ip.dev == dev && ip.inum == inum)

-- `empty`, as the loop of `iget` sets it
abbrev pub remember : (i : ℕ) → Inode → Option ℕ → Option ℕ
remember i ip (some e) = some e
remember i ip none = if ip.ref == 0 then some i else none

-- What the loop of `iget` comes to: the entry of the inode, or an empty one, if there is one.
pub data Slot : Type 0 where
  cached : ℕ → Slot
  empty : Option ℕ → Slot

-- The loop of `iget`, at index i
unfoldable pub find_inode : List Inode → (i : ℕ) → Option ℕ → (dev inum : ℕ) → Slot
find_inode [] i seen dev inum = empty seen
find_inode (ip ∷ ips) i seen dev inum =
    let next = find_inode ips (suc i) (remember i ip seen) dev inum in
    if is_inode dev inum ip then cached i else next

abbrev pub add_ref : Inode → Inode
add_ref ip = record ip { ref = ip.ref + 1 }

abbrev pub drop_ref : Inode → Inode
drop_ref ip = record ip { ref = ip.ref - 1 }

abbrev pub recycled : (dev inum : ℕ) → Inode → Inode
recycled dev inum ip = record ip { dev = dev; inum = inum; ref = 1; valid = false }

abbrev pub change : (Inode → Inode) → ℕ → List Inode → List Inode
change g i [] = []
change g zero (ip ∷ ips) = g ip ∷ ips
change g (suc i) (ip ∷ ips) = ip ∷ change g i ips

-- `iget`: `none` is a panic.
unfoldable pub iget : (dev inum : ℕ) → List Inode → Option (ℕ × List Inode)
iget dev inum ips = elim (find_inode ips 0 none dev inum) [
  | cached i ↦ some (i, change add_ref i ips)
  | empty none ↦ none
  | empty (some i) ↦ some (i, change (recycled dev inum) i ips)
]

unfoldable pub idup : ℕ → List Inode → List Inode
idup i ips = change add_ref i ips

-- `ilock` behind its `acquiresleep`: `none` is a panic.
unfoldable pub ilock : ℕ → List Inode → Disk → Option (List Inode)
ilock i ips d = elim (get_elem? ips i) [
  | none ↦ none
  | some ip ↦
      if ltb ip.ref 1
      then none
      else if ip.valid
      then some ips
      else if (d.dinodes ip.inum).type_ == 0
      then none
      else some (set ips i (record ip { valid = true; copy = d.dinodes ip.inum }))
]

-- `iput`: the last reference to an inode without links frees it on the disk.
unfoldable pub iput : ℕ → Superblock → List Inode → Disk → Option (List Inode × Disk)
iput i sb ips d = elim (get_elem? ips i) [
  | none ↦ none
  | some ip ↦
      if not (ip.ref == 1 && (ip.valid && ip.copy.nlink == 0))
      then some (change drop_ref i ips, d)
      else elim (itrunc ip.inum sb ip.copy d) [
        | none ↦ none
        | some (dip, d₁) ↦
            let gone : Dinode = record dip { type_ = 0 } in
            some (
              change drop_ref i (set ips i (record ip { valid = false; copy = gone })),
              iupdate ip.inum sb gone d₁,
            )
      ]
]
