-- ===== src/Kernel/Text/Move.antt =====
-- `memmove` of kernel/string.c copies, also where the blocks overlap.
use system_call_enhancement.Base.{
  ℕ, zero, suc, ◌+◌, ◌-◌, ◌≤◌, ◌<◌, ◌==◌, ltb, false, ◌&&◌, ◌≡◌, ◌≢◌, ◌⊎◌, refl, arith, inl, inr,
  Bool-cases, ap, ◌∙◌,
}
use system_call_enhancement.Kernel.Text.{Bytes, poke, copy_down, copy_up, memmove}

-- m' is m with the n bytes at s copied to d.
pub record Moved (m m' : Bytes) (d s n : ℕ) : Type 0 where
  pub copied : (j : ℕ) → j < n → m' (d + j) ≡ m (s + j)
  pub below : (a : ℕ) → a < d → m' a ≡ m a
  pub above : (a : ℕ) → d + n ≤ a → m' a ≡ m a

pub poke_same : (m : Bytes) (a b v : ℕ) → a ≡ b → poke m a v b ≡ v
poke_same m a b v h = ground arith

pub poke_other : (m : Bytes) (a b v : ℕ) → a ≢ b → poke m a v b ≡ m b
poke_other m a b v h = ground arith

lt_or_eq : (j n : ℕ) → j < suc n → (j < n) ⊎ (j ≡ n)
lt_or_eq j n h = omega arith

-- One byte more in front of a block.
Moved-in_front :
    {m m' : Bytes} {d s n : ℕ}
    → (s < d → s + suc n ≤ d)
    → Moved (poke m d (m s)) m' (d + 1) (s + 1) n
    → Moved m m' d s (suc n)
Moved-in_front {m} {m'} {d} {s} {n} apart r = record {
  copied = copied;
  below = λ a h. r.below a (omega arith) ∙ poke_other m d a (m s) (λ e. omega arith);
  above = λ a h. r.above a (omega arith) ∙ poke_other m d a (m s) (λ e. omega arith);
}
  where
    copied : (j : ℕ) → j < suc n → m' (d + j) ≡ m (s + j)
    copied zero h =
        let to : d + 0 ≡ d = omega arith in
        let from : s ≡ s + 0 = omega arith in
        ap m' to ∙ r.below d (omega arith) ∙ poke_same m d d (m s) refl ∙ ap m from
    copied (suc j) h =
        let to : d + suc j ≡ d + 1 + j = omega arith in
        let from : s + 1 + j ≡ s + suc j = omega arith in
        ap m' to
        ∙ r.copied j (omega arith)
        ∙ poke_other m d (s + 1 + j) (m s) (λ e. omega (arith, apart (omega arith)))
        ∙ ap m from

-- One byte more behind a block.
Moved-behind :
    {m m' : Bytes} {d s n : ℕ}
    → s < d
    → Moved (poke m (d + n) (m (s + n))) m' d s n
    → Moved m m' d s (suc n)
Moved-behind {m} {m'} {d} {s} {n} lt r = record {
  copied = λ j h. elim (lt_or_eq j n (omega arith)) [
    | inl more ↦ r.copied j more ∙ poke_other m (d + n) (s + j) (m (s + n)) (λ e. omega arith)
    | inr here ↦
        rw here (r.above (d + n) (omega arith) ∙ poke_same m (d + n) (d + n) (m (s + n)) refl)
  ];
  below = λ a h. r.below a h ∙ poke_other m (d + n) a (m (s + n)) (λ e. omega arith);
  above = λ a h. r.above a (omega arith) ∙ poke_other m (d + n) a (m (s + n)) (λ e. omega arith);
}

copy_up-Moved : (n s d : ℕ) (m : Bytes) → (s < d → s + n ≤ d) → Moved m (copy_up n s d m) d s n
unfolding copy_up
copy_up-Moved zero s d m apart = record {
  copied = λ j h. absurd (omega arith);
  below = λ a h. refl;
  above = λ a h. refl;
}
copy_up-Moved (suc n) s d m apart =
    Moved-in_front apart
      (copy_up-Moved n (s + 1) (d + 1) (poke m d (m s)) (λ h. omega (arith, apart (omega arith))))

copy_down-Moved : (n s d : ℕ) (m : Bytes) → s < d → Moved m (copy_down n (s + n) (d + n) m) d s n
unfolding copy_down
copy_down-Moved zero s d m lt = record {
  copied = λ j h. absurd (omega arith);
  below = λ a h. refl;
  above = λ a h. refl;
}
copy_down-Moved (suc n) s d m lt =
    let from : s + suc n - 1 ≡ s + n = omega arith in
    let to : d + suc n - 1 ≡ d + n = omega arith in
    rw (from, to) (Moved-behind lt (copy_down-Moved n s d (poke m (d + n) (m (s + n))) lt))

memmove-Moved : (dst src n : ℕ) (m : Bytes) → Moved m (memmove dst src n m) dst src n
unfolding memmove
memmove-Moved dst src zero m = record {
  copied = λ j h. absurd (omega arith);
  below = λ a h. refl;
  above = λ a h. refl;
}
memmove-Moved dst src (suc n) m =
    let some_bytes : (suc n == 0) ≡ false = ground arith in
    elim (Bool-cases (ltb src dst && ltb dst (src + suc n))) [
      | inl e ↦ rw (some_bytes, e) (copy_down-Moved (suc n) src dst m (ground (arith, e)))
      | inr e ↦ rw (some_bytes, e) (copy_up-Moved (suc n) src dst m (λ h. ground (arith, e)))
    ]

-- `memmove` leaves at dst the n bytes that were at src, and every other byte as it was, also where
-- the two blocks overlap.
pub memmove_lem :
    (dst src n : ℕ) (m : Bytes)
    → ((j : ℕ) → j < n → memmove dst src n m (dst + j) ≡ m (src + j))
      × ((a : ℕ) → a < dst → memmove dst src n m a ≡ m a)
      × ((a : ℕ) → dst + n ≤ a → memmove dst src n m a ≡ m a)
memmove_lem dst src n m = let r = memmove-Moved dst src n m in (r.copied, r.below, r.above)
