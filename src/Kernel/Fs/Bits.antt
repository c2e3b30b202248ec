-- ===== src/Kernel/Fs/Bits.antt =====
-- Single bits of the bytes of the free map in kernel/fs.c.
use system_call_enhancement.Base.{
  ℕ, zero, suc, ◌+◌, ◌-◌, ◌*◌, ◌/◌, ◌%◌, ◌^◌, ◌==◌, true, false, ◌<◌, ◌≤◌, ◌≡◌, ◌≢◌, refl, sym, ap,
  ◌∙◌, arith,
}
use native.Mathlib.Nat.{div-div-eq-div-mul}
use native.Mathlib.Numerals.{unary_clauses}
use system_call_enhancement.Base.Bits.{bit}

pow_suc : (k : ℕ) → 2 ^ suc k ≡ 2 ^ k * 2
pow_suc k = simp unary_clauses (omega arith)

-- Bit k by halving
shift : (x k : ℕ) → ℕ
shift x zero = x
shift x (suc k) = shift (x / 2) k

shift-bit : (k x : ℕ) → x / 2 ^ k ≡ shift x k
unfolding shift
shift-bit zero x = omega arith
shift-bit (suc k) x =
    let h : 2 ^ suc k ≡ 2 * 2 ^ k = omega (arith, pow_suc k) in
    ap (λ d. x / d) h ∙ sym (div-div-eq-div-mul x 2 (2 ^ k)) ∙ shift-bit k (x / 2)

shift-add_self : (k x : ℕ) → shift (x + 2 ^ k) k ≡ shift x k + 1
unfolding shift
shift-add_self zero x = refl
shift-add_self (suc k) x =
    let h : (x + 2 ^ suc k) / 2 ≡ x / 2 + 2 ^ k = omega (arith, pow_suc k) in
    ap (λ y. shift y k) h ∙ shift-add_self k (x / 2)

shift-add_ne : (j k x : ℕ) → j ≢ k → shift x k % 2 ≡ 0 → shift (x + 2 ^ k) j % 2 ≡ shift x j % 2
unfolding shift
shift-add_ne zero zero x h e = absurd (h refl)
shift-add_ne zero (suc k) x h e = omega (arith, pow_suc k)
shift-add_ne (suc j) zero x h e =
    ap (λ y. shift y j % 2) {x = (x + 1) / 2} {y = x / 2} (omega arith)
shift-add_ne (suc j) (suc k) x h e =
    let half : (x + 2 ^ suc k) / 2 ≡ x / 2 + 2 ^ k = omega (arith, pow_suc k) in
    ap (λ y. shift y j % 2) half ∙ shift-add_ne j k (x / 2) (λ q. h (ap suc q)) e

shift-le : (k x : ℕ) → 0 < shift x k → 2 ^ k ≤ x
unfolding shift
shift-le zero x h = h
shift-le (suc k) x h = omega (arith, pow_suc k, shift-le k (x / 2) h)

-- To set a bit that is clear
pub bit-add_self : (k x : ℕ) → bit k x ≡ false → bit k (x + 2 ^ k) ≡ true
bit-add_self k x h = ground (arith, shift-bit k x, shift-bit k (x + 2 ^ k), shift-add_self k x)

pub bit-add_ne : (j k x : ℕ) → j ≢ k → bit k x ≡ false → bit j (x + 2 ^ k) ≡ bit j x
bit-add_ne j k x h e =
    let clear : shift x k % 2 ≡ 0 = ground (arith, shift-bit k x) in
    ap (λ r. r == 1) {x = (x + 2 ^ k) / 2 ^ j % 2} {y = x / 2 ^ j % 2}
      (ap (λ q. q % 2) (shift-bit j (x + 2 ^ k))
        ∙ shift-add_ne j k x h clear
        ∙ sym (ap (λ q. q % 2) (shift-bit j x)))

-- To clear a bit that is set
pub bit-le : (k x : ℕ) → bit k x ≡ true → 2 ^ k ≤ x
bit-le k x h = shift-le k x (ground (arith, shift-bit k x))

pub bit-sub_self : (k x : ℕ) → bit k x ≡ true → bit k (x - 2 ^ k) ≡ false
bit-sub_self k x h =
    let back : x - 2 ^ k + 2 ^ k ≡ x = omega (arith, bit-le k x h) in
    let up : shift x k ≡ shift (x - 2 ^ k) k + 1 =
      ap (λ y. shift y k) (sym back) ∙ shift-add_self k (x - 2 ^ k) in
    ground (arith, shift-bit k x, shift-bit k (x - 2 ^ k), up)

pub bit-sub_ne : (j k x : ℕ) → j ≢ k → bit k x ≡ true → bit j (x - 2 ^ k) ≡ bit j x
bit-sub_ne j k x h e =
    let back : x - 2 ^ k + 2 ^ k ≡ x = omega (arith, bit-le k x e) in
    sym (bit-add_ne j k (x - 2 ^ k) h (bit-sub_self k x e)) ∙ ap (bit j) back
