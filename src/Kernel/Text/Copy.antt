-- ===== src/Kernel/Text/Copy.antt =====
-- `safestrcpy` of kernel/string.c keeps to its n bytes and ends the string within them.
use system_call_enhancement.Base.{
  ℕ, zero, suc, ◌+◌, ◌≤◌, ◌<◌, ◌==◌, ◌≡◌, refl, arith, inl, inr, Bool-cases, ap, ◌∙◌,
}
use system_call_enhancement.Kernel.Text.{Bytes, poke, copy_and_end, safestrcpy}
use system_call_enhancement.Kernel.Text.Move.{poke_same, poke_other}

-- m' differs from m in the n bytes at s at most, and has a NUL among them.
record Ended (m m' : Bytes) (s n : ℕ) : Type 0 where
  below : (a : ℕ) → a < s → m' a ≡ m a
  above : (a : ℕ) → s + n ≤ a → m' a ≡ m a
  ended : (j : ℕ) × (j < n) × (m' (s + j) ≡ 0)

copy_and_end-Ended : (s t n : ℕ) (m : Bytes) → Ended m (copy_and_end s t n m) s (suc n)
unfolding copy_and_end
copy_and_end-Ended s t zero m =
    let here : s + 0 ≡ s = omega arith in
    record {
      below = λ a h. poke_other m s a 0 (λ e. omega arith);
      above = λ a h. poke_other m s a 0 (λ e. omega arith);
      ended = (0, omega arith, ap (poke m s 0) here ∙ poke_same m s s 0 refl);
    }
copy_and_end-Ended s t (suc n) m = elim (Bool-cases (m t == 0)) [
  | inl e ↦ rw e (record {
    below = λ a h.
        poke_other m₁ (s + 1) a 0 (λ e. omega arith) ∙ poke_other m s a (m t) (λ e. omega arith);
    above = λ a h.
        poke_other m₁ (s + 1) a 0 (λ e. omega arith) ∙ poke_other m s a (m t) (λ e. omega arith);
    ended = (1, omega arith, poke_same m₁ (s + 1) (s + 1) 0 refl);
  })
  | inr e ↦
      let r = copy_and_end-Ended (s + 1) (t + 1) n m₁ in
      let (j, lt, nul) = r.ended in
      let shift : s + suc j ≡ s + 1 + j = omega arith in
      rw e (record {
        below = λ a h. r.below a (omega arith) ∙ poke_other m s a (m t) (λ e. omega arith);
        above = λ a h. r.above a (omega arith) ∙ poke_other m s a (m t) (λ e. omega arith);
        ended = (suc j, omega arith, ap (copy_and_end (s + 1) (t + 1) n m₁) shift ∙ nul);
      })
]
  where
    m₁ : Bytes
    m₁ = poke m s (m t)

-- `safestrcpy` into n bytes at s changes no other byte and, if n is not 0, leaves a NUL among
-- them, whatever the bytes at t are.
pub safestrcpy_lem :
    (s t n : ℕ) (m : Bytes)
    → ((a : ℕ) → a < s → safestrcpy s t n m a ≡ m a)
      × ((a : ℕ) → s + n ≤ a → safestrcpy s t n m a ≡ m a)
      × (0 < n → (j : ℕ) × (j < n) × (safestrcpy s t n m (s + j) ≡ 0))
unfolding safestrcpy
safestrcpy_lem s t zero m = ((λ a h. refl), (λ a h. refl), (λ h. absurd (omega arith)))
safestrcpy_lem s t (suc n) m =
    let r = copy_and_end-Ended s t n m in (r.below, r.above, λ h. r.ended)
