-- ===== src/Kernel/Fs/Free.antt =====
-- The free map of kernel/fs.c: `balloc` takes a block that is free, and `bfree` gives it back.
use system_call_enhancement.Base.{
  ℕ, zero, suc, ◌+◌, ◌-◌, ◌/◌, ◌%◌, ◌^◌, ◌==◌, ltb, Bool, true, false, ◌&&◌, ◌<◌, ◌≤◌, none, some,
  ◌≡◌, ◌≢◌, refl, ap, ◌∙◌, arith, Bool-cases, inl, inr, subst,
}
use system_call_enhancement.Base.Bits.{bit}
use system_call_enhancement.Kernel.Fs.{Superblock, Disk, bpb, bblock, store_byte, find_bit}
use system_call_enhancement.Kernel.Fs.Bits.{bit-add_self, bit-add_ne, bit-sub_self, bit-sub_ne}

-- The free map's word on a block
unfoldable pub in_use : Superblock → Disk → ℕ → Bool
in_use sb d b = bit (b % 8) (d.bytes (bblock b sb) (b % bpb / 8))

in_use-at :
    (sb : Superblock) (d : Disk) (b i : ℕ)
    → b % bpb ≡ 0
    → i < bpb
    → in_use sb d (b + i) ≡ bit (i % 8) (d.bytes (bblock b sb) (i / 8))
unfolding in_use
in_use-at sb d b i al h =
    let low : (b + i) % 8 ≡ i % 8 = omega arith in
    let block : (b + i) / 8192 ≡ b / 8192 = omega arith in
    let byte : (b + i) % 8192 / 8 ≡ i / 8 = omega arith in rw (low, block, byte) refl

-- A store into the byte of the map that has the bit of b
abbrev pub with_byte : Superblock → (b v : ℕ) → Disk → Disk
with_byte sb b v d = store_byte (bblock b sb) (b % bpb / 8) v d

module _ (sb : Superblock) (d : Disk) (b v : ℕ) where
  with_byte_self : in_use sb (with_byte sb b v d) b ≡ bit (b % 8) v
  unfolding in_use
  with_byte_self = ap (bit (b % 8)) (ground arith)

  -- The other bits of the byte, and those of other bytes
  with_byte_ne :
      (c : ℕ)
      → c ≢ b
      → (c % 8 ≢ b % 8 → bit (c % 8) v ≡ bit (c % 8) (d.bytes (bblock b sb) (b % bpb / 8)))
      → in_use sb (with_byte sb b v d) c ≡ in_use sb d c
  unfolding in_use
  with_byte_ne c h same =
      elim (Bool-cases (bblock c sb == bblock b sb && c % bpb / 8 == b % bpb / 8)) [
        | inr k ↦ rw k refl
        | inl k ↦
            let block : bblock c sb ≡ bblock b sb = ground (arith, k) in
            let byte : c % bpb / 8 ≡ b % bpb / 8 = ground (arith, k) in
            let low : c % 8 ≢ b % 8 = λ q. h (omega (arith, block, byte, q)) in
            rw (k, block, byte) (same low)
      ]

-- How the bit of one block changes
pub record OneBit (sb : Superblock) (d : Disk) (b : ℕ) (state : Bool) (d' : Disk) : Type 0 where
  pub self : in_use sb d' b ≡ state
  pub others : (c : ℕ) → c ≢ b → in_use sb d' c ≡ in_use sb d c

pub set_bit-OneBit :
    (sb : Superblock) (d : Disk) (b : ℕ)
    → in_use sb d b ≡ false
    → OneBit sb d b true (with_byte sb b (d.bytes (bblock b sb) (b % bpb / 8) + 2 ^ (b % 8)) d)
unfolding in_use
set_bit-OneBit sb d b e =
    let byte = d.bytes (bblock b sb) (b % bpb / 8) in
    record {
      self = with_byte_self sb d b (byte + 2 ^ (b % 8)) ∙ bit-add_self (b % 8) byte e;
      others = λ c h.
          with_byte_ne sb d b (byte + 2 ^ (b % 8)) c h (λ q. bit-add_ne (c % 8) (b % 8) byte q e);
    }

pub clear_bit-OneBit :
    (sb : Superblock) (d : Disk) (b : ℕ)
    → in_use sb d b ≡ true
    → OneBit sb d b false (with_byte sb b (d.bytes (bblock b sb) (b % bpb / 8) - 2 ^ (b % 8)) d)
unfolding in_use
clear_bit-OneBit sb d b e =
    let byte = d.bytes (bblock b sb) (b % bpb / 8) in
    record {
      self = with_byte_self sb d b (byte - 2 ^ (b % 8)) ∙ bit-sub_self (b % 8) byte e;
      others = λ c h.
          with_byte_ne sb d b (byte - 2 ^ (b % 8)) c h (λ q. bit-sub_ne (c % 8) (b % 8) byte q e);
    }

-- What the inner loop finds
pub data Scanned (sb : Superblock) (d : Disk) (n bi b : ℕ) : Type 0 where
  all_set :
      find_bit n bi b sb d ≡ none
      → ((i : ℕ) → bi ≤ i → i < bi + n → b + i < sb.size → in_use sb d (b + i) ≡ true)
      → Scanned sb d n bi b
  clear :
      (i : ℕ)
      → find_bit n bi b sb d ≡ some i
      → i < bi + n
      → b + i < sb.size
      → in_use sb d (b + i) ≡ false
      → ((j : ℕ) → bi ≤ j → j < i → in_use sb d (b + j) ≡ true)
      → Scanned sb d n bi b

pub find_bit-Scanned :
    (sb : Superblock) (d : Disk) (n bi b : ℕ) → b % bpb ≡ 0 → bi + n ≤ bpb → Scanned sb d n bi b
unfolding find_bit
find_bit-Scanned sb d zero bi b al h = all_set refl (λ i p q r. absurd (omega (arith, p, q)))
find_bit-Scanned sb d (suc n) bi b al h =
    let at = in_use-at sb d b bi al (omega (arith, h)) in
    elim (Bool-cases (ltb (b + bi) sb.size)) [
      | inr e ↦ all_set (rw (find_bit, e) refl) (λ i p q r. absurd (ground (arith, e, p, r)))
      | inl e ↦ elim (Bool-cases (bit (bi % 8) (d.bytes (bblock b sb) (bi / 8)))) [
        | inr f ↦
            clear bi (rw (find_bit, e, f) refl) (omega arith) (ground (arith, e)) (at ∙ f)
              (λ j p q. absurd (omega (arith, p, q)))
        | inl f ↦ elim (find_bit-Scanned sb d n (bi + 1) b al (omega (arith, h))) [
          | all_set g s ↦ all_set (rw (find_bit, e, f, g) refl) (λ i p q r.
              elim (Bool-cases (i == bi)) [
                | inl z ↦
                    let same : bi ≡ i = ground (arith, z) in
                    subst (λ x. in_use sb d (b + x) ≡ true) same (at ∙ f)
                | inr z ↦ s i (ground (arith, z, p)) (omega (arith, q)) r
              ])
          | clear i g l r z s ↦
              clear i (rw (find_bit, e, f, g) refl) (omega (arith, l)) r z (λ j p q.
                elim (Bool-cases (j == bi)) [
                  | inl y ↦
                      let same : bi ≡ j = ground (arith, y) in
                      subst (λ x. in_use sb d (b + x) ≡ true) same (at ∙ f)
                  | inr y ↦ s j (ground (arith, y, p)) q
                ])
        ]
      ]
    ]
