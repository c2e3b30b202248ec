-- ===== src/Kernel/Fs/Read.antt =====
-- What `readi` of kernel/fs.c hands out.
use system_call_enhancement.Base.{
  ℕ, zero, suc, ◌+◌, ◌-◌, ◌*◌, ◌/◌, ◌%◌, ◌^◌, ◌==◌, ltb, false, ◌<◌, ◌≤◌, min, List, [], ◌∷◌, ◌++◌,
  append_assoc, append-nil, Option, some, ◌≡◌, refl, sym, ap, ap₂, ◌∙◌, arith, Bool-cases, inl, inr,
}
use system_call_enhancement.Kernel.Fs.{Superblock, Dinode, Disk}
use system_call_enhancement.Kernel.Fs.Inode.{b_size, bmap}
use system_call_enhancement.Kernel.Fs.Content.{turn_size, Copied, read_from, readi}

-- n values of f from a on
unfoldable pub window : (ℕ → ℕ) → (a n : ℕ) → List ℕ
window f a zero = []
window f a (suc n) = f a ∷ window f (a + 1) n

window-append : (f : ℕ → ℕ) (a m n : ℕ) → window f a (m + n) ≡ window f a m ++ window f (a + m) n
unfolding window
window-append f a zero n = ap₂ (window f) {x = a} {y = a + 0} (omega arith) (omega arith)
window-append f a (suc m) n =
    let count : suc m + n ≡ suc (m + n) = omega arith in
    let place : a + 1 + m ≡ a + suc m = omega arith in
    ap (window f a) count
    ∙ ap (λ xs. f a ∷ xs)
        (window-append f (a + 1) m n ∙ ap (λ b. window f (a + 1) m ++ window f b n) place)

window_same :
    (f g : ℕ → ℕ) (a b n : ℕ)
    → ((i : ℕ) → i < n → f (a + i) ≡ g (b + i))
    → window f a n ≡ window g b n
unfolding window
window_same f g a b zero h = refl
window_same f g a b (suc n) h =
    let first : f a ≡ g b =
      ap f {x = a} {y = a + 0} (omega arith)
      ∙ h 0 (omega arith)
      ∙ ap g {x = b + 0} {y = b} (omega arith) in
    ap₂ ◌∷◌ first (
      window_same f g (a + 1) (b + 1) n (λ i q.
        ap f {x = a + 1 + i} {y = a + suc i} (omega arith)
        ∙ h (suc i) (omega arith)
        ∙ ap g {x = b + suc i} {y = b + 1 + i} (omega arith)))

-- A destination that takes all that it is given, in its order
abbrev pub collect : (dst : ℕ) → (ℕ → ℕ) → (m : ℕ) → List ℕ → Option (List ℕ)
collect dst f m out = some (out ++ window f 0 m)

-- The byte of a file at an offset, by the number of each of its blocks
abbrev pub content : (blk : ℕ → ℕ) → Disk → ℕ → ℕ
content blk d off = d.bytes (blk (off / b_size)) (off % b_size)

turn_pos : (left off : ℕ) → (left == 0) ≡ false → 0 < turn_size left off
turn_pos left off h = ground arith

turn_le : (left off : ℕ) → turn_size left off ≤ left
turn_le left off = ground arith

turn_block : (left off i : ℕ) → i < turn_size left off → (off + i) / b_size ≡ off / b_size
turn_block left off i h = ground arith

turn_at : (left off i : ℕ) → i < turn_size left off → (off + i) % b_size ≡ off % b_size + i
turn_at left off i h = ground arith

-- The bytes of one turn are those of the file.
turn-window :
    (blk : ℕ → ℕ) (d : Disk) (left off : ℕ)
    → window (λ i. d.bytes (blk (off / b_size)) (off % b_size + i)) 0 (turn_size left off)
      ≡ window (content blk d) off (turn_size left off)
turn-window blk d left off =
    window_same (λ i. d.bytes (blk (off / b_size)) (off % b_size + i)) (content blk d) 0 off
      (turn_size left off)
      (λ i h.
        let zero_plus : 0 + i ≡ i = omega arith in
        ap (λ k. d.bytes (blk (off / b_size)) (off % b_size + k)) zero_plus
        ∙ ap₂ d.bytes (ap blk (sym (turn_block left off i h))) (sym (turn_at left off i h)))

abbrev done : (tot : ℕ) → Dinode → Disk → List ℕ → Option (Copied (List ℕ))
done tot dip d out = some (record { tot = some tot; copy = dip; disk = d; memory = out })

module _ (sb : Superblock) (dip : Dinode) (d : Disk) (blk : ℕ → ℕ)
    (there : (b : ℕ) → b * b_size < dip.size → bmap b sb dip d ≡ some (blk b, dip, d))
    (nonzero : (b : ℕ) → b * b_size < dip.size → (blk b == 0) ≡ false) where
  read_turn :
      (fuel left tot off dst : ℕ) (out : List ℕ)
      → (left == 0) ≡ false
      → off < dip.size
      → read_from collect (suc fuel) left tot off dst sb dip d out
        ≡ read_from collect fuel
            (left - turn_size left off)
            (tot + turn_size left off)
            (off + turn_size left off)
            (dst + turn_size left off)
            sb
            dip
            d
            (out ++ window (content blk d) off (turn_size left off))
  unfolding read_from
  read_turn fuel left tot off dst out h lt =
      let inside : off / b_size * b_size < dip.size = omega arith in
      rw (read_from, h, there (off / b_size) inside, nonzero (off / b_size) inside)
        (ap
          (λ w.
            read_from collect fuel (left - turn_size left off) (tot + turn_size left off)
              (off + turn_size left off) (dst + turn_size left off) sb dip d (out ++ w))
          (turn-window blk d left off))

  read_all :
      (fuel left tot off dst : ℕ) (out : List ℕ)
      → left ≤ fuel
      → off + left ≤ dip.size
      → read_from collect fuel left tot off dst sb dip d out
        ≡ done (tot + left) dip d (out ++ window (content blk d) off left)
  unfolding read_from window
  read_all zero left tot off dst out h fits =
      let z : left ≡ 0 = omega arith in
      let count : tot + 0 ≡ tot = omega arith in
      rw (z, count) (ap (done tot dip d) (sym (append-nil out)))
  read_all (suc fuel) left tot off dst out h fits = elim (Bool-cases (left == 0)) [
    | inl e ↦
        let z : left ≡ 0 = ground (arith, e) in
        let count : tot + 0 ≡ tot = omega arith in
        rw (z, count) (ap (done tot dip d) (sym (append-nil out)))
    | inr e ↦
        let m = turn_size left off in
        let pos_ = turn_pos left off e in
        let le = turn_le left off in
        let back : m + (left - m) ≡ left = omega (arith, le) in
        let sum : tot + m + (left - m) ≡ tot + left = omega (arith, le) in
        read_turn fuel left tot off dst out e (ground (arith, e, fits))
        ∙ read_all fuel (left - m) (tot + m) (off + m) (dst + m)
            (out ++ window (content blk d) off m) (omega (arith, h, pos_, le))
            (omega (arith, fits, le))
        ∙ ap₂ (λ t w. done t dip d w) sum
            (append_assoc out (window (content blk d) off m)
                (window (content blk d) (off + m) (left - m))
              ∙ ap (λ w. out ++ w)
                  (sym (window-append (content blk d) off m (left - m))
                    ∙ ap (window (content blk d) off) back))
  ]

  read_start :
      (k off dst : ℕ) (out : List ℕ)
      → off + k ≤ dip.size
      → read_from collect k k 0 off dst sb dip d out
        ≡ done k dip d (out ++ window (content blk d) off k)
  read_start k off dst out fits =
      let sum : 0 + k ≡ k = omega arith in
      read_all k k 0 off dst out (omega arith) fits
      ∙ ap (λ t. done t dip d (out ++ window (content blk d) off k)) sum

-- `readi` of n bytes from an offset within the file, on an inode for each of whose blocks up to its
-- size `bmap` finds a number and changes nothing, into a destination that takes every byte. It does
-- not panic; it returns n, or the bytes up to the end of the file if there are fewer; the bytes
-- given out are those of the file from the offset on, in their order across the blocks; and neither
-- the inode nor the disk changes.
pub readi-content :
    (sb : Superblock) (dip : Dinode) (d : Disk) (blk : ℕ → ℕ) (dst off n : ℕ) (out : List ℕ)
    → ((b : ℕ) → b * b_size < dip.size → bmap b sb dip d ≡ some (blk b, dip, d))
    → ((b : ℕ) → b * b_size < dip.size → (blk b == 0) ≡ false)
    → off ≤ dip.size
    → off + n < 2 ^ 32
    → readi collect dst off n sb dip d out
      ≡ some (record {
        tot = some (min n (dip.size - off));
        copy = dip;
        disk = d;
        memory = out ++ window (content blk d) off (min n (dip.size - off));
      })
unfolding readi
readi-content sb dip d blk dst off n out there nonzero inside small =
    let wrap : (off + n) % 2 ^ 32 ≡ off + n = omega arith in
    let a : ltb dip.size off ≡ false = ground arith in
    let b : ltb (off + n) off ≡ false = ground arith in
    elim (Bool-cases (ltb dip.size (off + n))) [
      | inl c ↦
          let least : min n (dip.size - off) ≡ dip.size - off = ground (arith, c) in
          rw (wrap, a, b, c, least)
            (read_start sb dip d blk there nonzero (dip.size - off) off dst out (omega arith))
      | inr c ↦
          let least : min n (dip.size - off) ≡ n = ground (arith, c) in
          rw (wrap, a, b, c, least)
            (read_start sb dip d blk there nonzero n off dst out (ground (arith, c)))
    ]
