-- ===== src/Kernel/Fs/Content.antt =====
-- `readi` and `writei` of kernel/fs.c. What they hand to `either_copyout` and `either_copyin`, which
-- know the process's memory, is an argument here: a state M of that memory, and the two functions
-- on it. `either_copyout` gives `none` for -1; `either_copyin` gets the bytes of the buffer and
-- gives them back changed, with false for -1. Numbers of bytes are 32-bit words.
use system_call_enhancement.Base.{
  ℕ, zero, suc, ◌+◌, ◌-◌, ◌*◌, ◌/◌, ◌%◌, ◌^◌, ◌==◌, ltb, leb, if◌then◌else◌, Bool, true, false,
  ◌&&◌, ◌||◌, Option, none, some,
}
use system_call_enhancement.Kernel.Fs.{Superblock, Dinode, Disk, log_write}
use system_call_enhancement.Kernel.Fs.Inode.{n_direct, n_indirect, b_size, bmap, iupdate}

-- The bytes of one turn: `min(n - tot, BSIZE - off%BSIZE)`
abbrev pub turn_size : (left off : ℕ) → ℕ
turn_size left off = let room = b_size - off % b_size in if ltb left room then left else room

-- The end of a loop: the bytes copied, or `none` where `readi` returns -1
pub record Copied {ℓ} (M : Type ℓ) : Type ℓ where
  pub tot : Option ℕ
  pub copy : Dinode
  pub disk : Disk
  pub memory : M

module _ {ℓ} {M : Type ℓ}
    (either_copyout : (dst : ℕ) → (data_ : ℕ → ℕ) → (m : ℕ) → M → Option M) where
  -- The loop of `readi` with `left` bytes to go, on fuel: `none` is a panic of `bmap`.
  unfoldable pub read_from :
      (fuel left tot off dst : ℕ) → Superblock → Dinode → Disk → M → Option (Copied M)
  read_from zero left tot off dst sb dip d u =
      some (record { tot = some tot; copy = dip; disk = d; memory = u })
  read_from (suc fuel) left tot off dst sb dip d u = elim (left == 0) [
    | true ↦ some (record { tot = some tot; copy = dip; disk = d; memory = u })
    | false ↦ elim (bmap (off / b_size) sb dip d) [
      | none ↦ none
      | some (addr, dip₁, d₁) ↦ elim (addr == 0) [
        | true ↦ some (record { tot = some tot; copy = dip₁; disk = d₁; memory = u })
        | false ↦
            let m = turn_size left off in
            elim (either_copyout dst (λ i. d₁.bytes addr (off % b_size + i)) m u) [
              | none ↦ some (record { tot = none; copy = dip₁; disk = d₁; memory = u })
              | some u₁ ↦ read_from fuel (left - m) (tot + m) (off + m) (dst + m) sb dip₁ d₁ u₁
            ]
      ]
    ]
  ]

  unfoldable pub readi : (dst off n : ℕ) → Superblock → Dinode → Disk → M → Option (Copied M)
  readi dst off n sb dip d u =
      let end_ = (off + n) % 2 ^ 32 in
      let left = if ltb dip.size end_ then dip.size - off else n in
      if ltb dip.size off || ltb end_ off
      then some (record { tot = some 0; copy = dip; disk = d; memory = u })
      else read_from left left 0 off dst sb dip d u

module _ {ℓ} {M : Type ℓ} (either_copyin : (src m : ℕ) → M → (ℕ → ℕ) → Bool × (ℕ → ℕ)) where
  -- The loop of `writei`, and the offset behind it
  unfoldable pub write_from :
      (fuel left tot off src : ℕ) → Superblock → Dinode → Disk → M → Option (ℕ × ℕ × Dinode × Disk)
  write_from zero left tot off src sb dip d u = some (tot, off, dip, d)
  write_from (suc fuel) left tot off src sb dip d u = elim (left == 0) [
    | true ↦ some (tot, off, dip, d)
    | false ↦ elim (bmap (off / b_size) sb dip d) [
      | none ↦ none
      | some (addr, dip₁, d₁) ↦ elim (addr == 0) [
        | true ↦ some (tot, off, dip₁, d₁)
        | false ↦
            let m = turn_size left off in
            let at = off % b_size in
            let (success, new) = either_copyin src m u (λ i. d₁.bytes addr (at + i)) in
            let d₂ : Disk = record d₁ {
              bytes = λ b i.
                  if b == addr && (leb at i && ltb i (at + m)) then new (i - at) else d₁.bytes b i;
            } in
            elim success [
              | false ↦ some (tot, off, dip₁, d₂)
              | true ↦
                  write_from fuel (left - m) (tot + m) (off + m) (src + m) sb dip₁
                    (log_write addr d₂) u
            ]
      ]
    ]
  ]

  -- `writei`: the bytes written, or `none` for -1, and `none` of all for a panic
  unfoldable pub writei :
      (inum src off n : ℕ) → Superblock → Dinode → Disk → M → Option (Option ℕ × Dinode × Disk)
  writei inum src off n sb dip d u =
      let end_ = (off + n) % 2 ^ 32 in
      if (ltb dip.size off || ltb end_ off) || ltb ((n_direct + n_indirect) * b_size) end_
      then some (none, dip, d)
      else elim (write_from n n 0 off src sb dip d u) [
        | none ↦ none
        | some (tot, off₁, dip₁, d₁) ↦
            let grown : Dinode = if ltb dip₁.size off₁ then record dip₁ { size = off₁ } else dip₁ in
            some (some tot, grown, iupdate inum sb grown d₁)
      ]
