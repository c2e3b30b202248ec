-- ===== src/Kernel/Fs/Bmap.antt =====
-- `bmap` of kernel/fs.c keeps to the block that it once returned.
use system_call_enhancement.Base.{
  ℕ, ◌+◌, ◌-◌, ◌==◌, ltb, true, false, ◌<◌, ◌≤◌, none, some, ◌≡◌, ◌≢◌, refl, ap, ◌∙◌, arith,
  Bool-cases, inl, inr, subst, sym,
}
use system_call_enhancement.Kernel.Fs.{Superblock, Dinode, Disk, log_write, bblock}
use system_call_enhancement.Kernel.Fs.Free.{in_use}
use system_call_enhancement.Kernel.Fs.Balloc.{MapInUse, Taken, full, taken, balloc-Balloc}
use system_call_enhancement.Kernel.Fs.Inode.{
  n_direct, n_indirect, set_addr, store_word, addr_at, word_at, indirect, bmap,
}

-- Every block is in use.
abbrev pub IsFull : Superblock → Disk → Type 0
IsFull sb d = (c : ℕ) → c < sb.size → in_use sb d c ≡ true

-- The free map lies on the disk, and it and block 0 are in use.
pub record HasMap (sb : Superblock) (d : Disk) : Type 0 where
  pub in_map : MapInUse sb d
  pub on_disk : (c : ℕ) → c < sb.size → bblock c sb < sb.size
  pub boot : in_use sb d 0 ≡ true

module _ {sb : Superblock} {d d' : Disk} {b : ℕ} (t : Taken sb d b d') where
  -- A block that was in use stays in use.
  taken-in_use : (c : ℕ) → c < sb.size → in_use sb d c ≡ true → in_use sb d' c ≡ true
  taken-in_use c h e = elim (Bool-cases (c == b)) [
    | inl q ↦
        let same : c ≡ b = ground (arith, q) in
        subst (λ x. in_use sb d' x ≡ true) (sym same) t.now_used
    | inr q ↦ t.others c h (ground (arith, q)) ∙ e
  ]

  taken_nonzero : in_use sb d 0 ≡ true → (b == 0) ≡ false
  taken_nonzero boot = elim (Bool-cases (b == 0)) [
    | inr q ↦ q
    | inl q ↦
        let same : b ≡ 0 = ground (arith, q) in
        let bad = sym boot ∙ ap (in_use sb d) (sym same) ∙ t.was_free in
        absurd (ground (arith, bad))
  ]

  taken-HasMap : HasMap sb d → HasMap sb d'
  taken-HasMap k = record {
    in_map = λ c h. taken-in_use (bblock c sb) (k.on_disk c h) (k.in_map c h);
    on_disk = k.on_disk;
    boot = taken-in_use 0 (omega (arith, t.exists)) k.boot;
  }

-- How an address of the inode is found or made, by index
data Addressed (i : ℕ) (sb : Superblock) (dip : Dinode) (d : Disk) : Type 0 where
  no_block : addr_at i sb dip d ≡ (0, dip, d) → dip.addrs i ≡ 0 → IsFull sb d → Addressed i sb dip d
  at :
      (a : ℕ) (dip' : Dinode) (d' : Disk)
      → addr_at i sb dip d ≡ (a, dip', d')
      → HasMap sb d'
      → (a == 0) ≡ false
      → dip'.addrs i ≡ a
      → ((j : ℕ) → j ≢ i → dip'.addrs j ≡ dip.addrs j)
      → Addressed i sb dip d

addr_at-Addressed :
    (i : ℕ) (sb : Superblock) (dip : Dinode) (d : Disk) → HasMap sb d → Addressed i sb dip d
unfolding addr_at
addr_at-Addressed i sb dip d map = elim (Bool-cases (dip.addrs i == 0)) [
  | inr e ↦ at (dip.addrs i) dip d (rw e refl) map e refl (λ j h. refl)
  | inl e ↦ elim (balloc-Balloc sb d map.in_map) [
    | full all r ↦ no_block (rw (e, r) refl) (ground (arith, e)) all
    | taken b d' r t ↦
        let f = taken_nonzero t map.boot in
        at b (set_addr i b dip) d' (rw (e, r, f) refl) (taken-HasMap t map) f (ground arith)
          (λ j h. ground arith)
  ]
]

-- The same for a word of the indirect block
data Stored (addr bn : ℕ) (sb : Superblock) (d : Disk) : Type 0 where
  no_block : word_at addr bn sb d ≡ (0, d) → d.words addr bn ≡ 0 → IsFull sb d → Stored addr bn sb d
  at :
      (a : ℕ) (d' : Disk)
      → word_at addr bn sb d ≡ (a, d')
      → (a == 0) ≡ false
      → d'.words addr bn ≡ a
      → Stored addr bn sb d

word_at-Stored : (addr bn : ℕ) (sb : Superblock) (d : Disk) → HasMap sb d → Stored addr bn sb d
unfolding word_at
word_at-Stored addr bn sb d map = elim (Bool-cases (d.words addr bn == 0)) [
  | inr e ↦ at (d.words addr bn) d (rw e refl) e refl
  | inl e ↦ elim (balloc-Balloc sb d map.in_map) [
    | full all r ↦ no_block (rw (e, r) refl) (ground (arith, e)) all
    | taken b d' r t ↦
        let f = taken_nonzero t map.boot in
        at b (log_write addr (store_word addr bn b d')) (rw (e, r, f) refl) f (ground arith)
  ]
]

-- An address or a word that is there is returned as it is.
addr_at-again :
    (i a : ℕ) (sb : Superblock) (dip : Dinode) (d : Disk)
    → dip.addrs i ≡ a
    → (a == 0) ≡ false
    → addr_at i sb dip d ≡ (a, dip, d)
unfolding addr_at
addr_at-again i a sb dip d e h = rw (e, h) refl

word_at-again :
    (addr bn a : ℕ) (sb : Superblock) (d : Disk)
    → d.words addr bn ≡ a
    → (a == 0) ≡ false
    → word_at addr bn sb d ≡ (a, d)
unfolding word_at
word_at-again addr bn a sb d e h = rw (e, h) refl

pub data Located (bn : ℕ) (sb : Superblock) (dip : Dinode) (d : Disk) : Type 0 where
  out_of_range : n_direct + n_indirect ≤ bn → bmap bn sb dip d ≡ none → Located bn sb dip d
  no_space :
      (dip' : Dinode) (d' : Disk)
      → bn < n_direct + n_indirect
      → bmap bn sb dip d ≡ some (0, dip', d')
      → IsFull sb d'
      → (bn < n_direct → dip.addrs bn ≡ 0)
      → ((j : ℕ) → j < n_direct → dip'.addrs j ≡ dip.addrs j)
      → Located bn sb dip d
  block :
      (a : ℕ) (dip' : Dinode) (d' : Disk)
      → bn < n_direct + n_indirect
      → bmap bn sb dip d ≡ some (a, dip', d')
      → (a == 0) ≡ false
      → bmap bn sb dip' d' ≡ some (a, dip', d')
      → ((j : ℕ) → j < n_direct → j ≢ bn → dip'.addrs j ≡ dip.addrs j)
      → Located bn sb dip d

bmap-direct :
    (bn : ℕ) (sb : Superblock) (dip : Dinode) (d : Disk)
    → ltb bn n_direct ≡ true
    → bmap bn sb dip d ≡ some (addr_at bn sb dip d)
unfolding bmap
bmap-direct bn sb dip d h = rw (bmap, h) refl

indirect-block :
    (addr bn : ℕ) (r : ℕ × Disk) (sb : Superblock) (dip : Dinode) (d : Disk)
    → (addr == 0) ≡ false
    → word_at addr bn sb d ≡ r
    → indirect bn sb (addr, dip, d) ≡ some (r.0, dip, r.1)
unfolding indirect
indirect-block addr bn r sb dip d z w = rw (indirect, z) (ap (λ x. some (x.0, dip, x.1)) w)

bmap-no_indirect :
    (bn : ℕ) (sb : Superblock) (dip : Dinode) (d d' : Disk)
    → ltb bn n_direct ≡ false
    → ltb (bn - n_direct) n_indirect ≡ true
    → addr_at n_direct sb dip d ≡ (0, dip, d')
    → bmap bn sb dip d ≡ some (0, dip, d')
unfolding bmap indirect
bmap-no_indirect bn sb dip d d' h k e = rw (bmap, h, k) (ap (indirect (bn - n_direct) sb) e)

bmap-panic :
    (bn : ℕ) (sb : Superblock) (dip : Dinode) (d : Disk)
    → ltb bn n_direct ≡ false
    → ltb (bn - n_direct) n_indirect ≡ false
    → bmap bn sb dip d ≡ none
unfolding bmap
bmap-panic bn sb dip d h k = rw (bmap, h, k) refl

-- The indirect block is there, and so is the word.
bmap-indirect :
    (bn addr : ℕ) (r : ℕ × Disk) (sb : Superblock) (dip dip₁ : Dinode) (d d₁ : Disk)
    → ltb bn n_direct ≡ false
    → ltb (bn - n_direct) n_indirect ≡ true
    → addr_at n_direct sb dip d ≡ (addr, dip₁, d₁)
    → (addr == 0) ≡ false
    → word_at addr (bn - n_direct) sb d₁ ≡ r
    → bmap bn sb dip d ≡ some (r.0, dip₁, r.1)
unfolding bmap
bmap-indirect bn addr r sb dip dip₁ d d₁ h k e z w =
    rw (bmap, h, k)
      (ap (indirect (bn - n_direct) sb) e ∙ indirect-block addr (bn - n_direct) r sb dip₁ d₁ z w)

-- `bmap` on a disk that has its free map, where this and block 0 are in use. It panics only for a
-- block past the 268 that an inode can have. Otherwise it returns 0, and then every block of the
-- disk is in use and a direct block asked for had no address; or it returns the number of a block,
-- and called again for the same block it returns that number again and changes nothing. The other
-- direct addresses of the inode stay as they were.
pub bmap-Located :
    (bn : ℕ) (sb : Superblock) (dip : Dinode) (d : Disk) → HasMap sb d → Located bn sb dip d
bmap-Located bn sb dip d map = elim (Bool-cases (ltb bn n_direct)) [
  | inl h ↦ elim (addr_at-Addressed bn sb dip d map) [
    | no_block e y all ↦
        no_space dip d (ground (arith, h)) (bmap-direct bn sb dip d h ∙ ap some e) all (λ _. y)
          (λ j q. refl)
    | at a dip' d' e _ z s o ↦
        block a dip' d' (ground (arith, h)) (bmap-direct bn sb dip d h ∙ ap some e) z
          (bmap-direct bn sb dip' d' h ∙ ap some (addr_at-again bn a sb dip' d' s z))
          (λ j q r. o j r)
  ]
  | inr h ↦ elim (Bool-cases (ltb (bn - n_direct) n_indirect)) [
    | inr k ↦ out_of_range (ground (arith, h, k)) (bmap-panic bn sb dip d h k)
    | inl k ↦ elim (addr_at-Addressed n_direct sb dip d map) [
      | no_block e y all ↦
          no_space dip d (ground (arith, k)) (bmap-no_indirect bn sb dip d d h k e) all
            (λ q. absurd (ground (arith, h, q))) (λ j q. refl)
      | at addr dip' d' e map' z s o ↦ elim (word_at-Stored addr (bn - n_direct) sb d' map') [
        | no_block w _ all ↦
            no_space dip' d' (ground (arith, k))
              (bmap-indirect bn addr (0, d') sb dip dip' d d' h k e z w) all
              (λ q. absurd (ground (arith, h, q))) (λ j q. o j (λ r. omega (arith, q, r)))
        | at a d'' w y t ↦
            block a dip' d'' (ground (arith, k))
              (bmap-indirect bn addr (a, d'') sb dip dip' d d' h k e z w) y
              (bmap-indirect bn addr (a, d'') sb dip' dip' d'' d'' h k
                (addr_at-again n_direct addr sb dip' d'' s z) z
                (word_at-again addr (bn - n_direct) a sb d'' t y))
              (λ j q r. o j (λ x. omega (arith, q, x)))
      ]
    ]
  ]
]
