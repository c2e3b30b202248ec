-- ===== src/Kernel/Fs/Tests.antt =====
-- Runs of kernel/fs.c on a small disk: blocks 0 to 4 are in use, the map is block 1.
use system_call_enhancement.Base.{
  ℕ, zero, suc, some, ◌<◌, ◌*◌, ◌/◌, ◌==◌, if◌then◌else◌, true, false, [], ◌∷◌, ◌≡◌, refl, ap,
  arith,
}
use system_call_enhancement.Kernel.Fs.{Superblock, Dinode, Disk, balloc}
use system_call_enhancement.Kernel.Fs.Free.{in_use}
use system_call_enhancement.Kernel.Fs.Balloc.{MapInUse, Balloc, balloc-Balloc}
use system_call_enhancement.Kernel.Fs.Inode.{Inode, bmap, addr_at}
use system_call_enhancement.Kernel.Fs.Content.{readi}
use system_call_enhancement.Kernel.Fs.Read.{window, collect, content, readi-content}
use system_call_enhancement.Kernel.Fs.Bmap.{HasMap, Located, bmap-Located}
use system_call_enhancement.Kernel.Fs.Iget.{IsUnique, Got, iget-Got}

abbrev sb : Superblock
sb = record { size = 10; ninodes = 3; inodestart = 2; bmapstart = 1 }

abbrev no_inode : Dinode
no_inode = record { type_ = 0; major = 0; minor = 0; nlink = 0; size = 0; addrs = λ _. 0 }

abbrev disk : Disk
disk = record {
  bytes = λ b i. if b == 1 then (if i == 0 then 31 else 0) else 7;
  words = λ b i. 7;
  dinodes = λ _. no_inode;
  logged = [];
}

map_used : MapInUse sb disk
unfolding in_use
map_used c h = let e : c / 8192 ≡ 0 = omega arith in rw e refl

balloc-Balloc_example : Balloc sb disk (balloc sb disk)
balloc-Balloc_example = balloc-Balloc sb disk map_used

disk-HasMap : HasMap sb disk
unfolding in_use
disk-HasMap = record { in_map = map_used; on_disk = λ c h. omega (arith, h); boot = refl }

bmap-Located_example : Located 13 sb no_inode disk
bmap-Located_example = bmap-Located 13 sb no_inode disk disk-HasMap

abbrev root_dir : Inode
root_dir = record { dev = 1; inum = 1; ref = 2; valid = true; copy = no_inode }

abbrev unused : Inode
unused = record { dev = 0; inum = 0; ref = 0; valid = false; copy = no_inode }

table-IsUnique : IsUnique (unused ∷ root_dir ∷ unused ∷ [])
table-IsUnique zero j x y p q r s d n =
    let z : unused ≡ x = cc in absurd (omega (arith, r, ap (λ (ip : Inode). ip.ref) z))
table-IsUnique i zero x y p q r s d n =
    let z : unused ≡ y = cc in absurd (omega (arith, s, ap (λ (ip : Inode). ip.ref) z))
table-IsUnique (suc zero) (suc zero) x y p q r s d n = refl
table-IsUnique (suc (suc zero)) j x y p q r s d n =
    let z : unused ≡ x = cc in absurd (omega (arith, r, ap (λ (ip : Inode). ip.ref) z))
table-IsUnique (suc (suc (suc i))) j x y p q r s d n = absurd (ground (arith, p))
table-IsUnique i (suc (suc zero)) x y p q r s d n =
    let z : unused ≡ y = cc in absurd (omega (arith, s, ap (λ (ip : Inode). ip.ref) z))
table-IsUnique i (suc (suc (suc j))) x y p q r s d n = absurd (ground (arith, q))

iget-Got_example : Got 1 5 (unused ∷ root_dir ∷ unused ∷ [])
iget-Got_example = iget-Got 1 5 (unused ∷ root_dir ∷ unused ∷ []) table-IsUnique

-- A file of 1500 bytes on the blocks 5 and 6
abbrev file : Dinode
file = record {
  type_ = 2;
  major = 0;
  minor = 0;
  nlink = 1;
  size = 1500;
  addrs = λ i. if i == 0 then 5 else if i == 1 then 6 else 0;
}

file_there : (b : ℕ) → b * 1024 < 1500 → bmap b sb file disk ≡ some (file.addrs b, file, disk)
unfolding bmap addr_at
file_there zero h = refl
file_there (suc zero) h = refl
file_there (suc (suc b)) h = absurd (omega arith)

file_nonzero : (b : ℕ) → b * 1024 < 1500 → (file.addrs b == 0) ≡ false
file_nonzero zero h = refl
file_nonzero (suc zero) h = refl
file_nonzero (suc (suc b)) h = absurd (omega arith)

readi-content_example :
    readi collect 0 1000 600 sb file disk []
    ≡ some (record {
      tot = some 500;
      copy = file;
      disk = disk;
      memory = window (content file.addrs disk) 1000 500;
    })
readi-content_example =
    readi-content sb file disk file.addrs 0 1000 600 [] file_there file_nonzero (omega arith)
      (omega arith)
