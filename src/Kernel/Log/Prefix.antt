-- ===== src/Kernel/Log/Prefix.antt =====
-- A prefix of the disk writes of `commit` of kernel/log.c.
use system_call_enhancement.Base.{
  ℕ, zero, suc, ◌+◌, ◌<◌, List, [], ◌∷◌, ◌++◌, length, take, All, ◌≡◌, refl, arith, ap,
}
use system_call_enhancement.Kernel.Log.{Block, Blocks}
use system_call_enhancement.Kernel.Log.Writes.{log_writes}

abbrev pub Writes : Type 0
Writes = List (ℕ × Block)

-- A prefix of two lists ends in the first or in the second.
pub data Cut (k : ℕ) (xs ys : Writes) : Type 0 where
  within : k < length xs → take k (xs ++ ys) ≡ take k xs → Cut k xs ys
  beyond : (past : ℕ) → take k (xs ++ ys) ≡ xs ++ take past ys → k ≡ length xs + past → Cut k xs ys

pub take-append : (k : ℕ) (xs ys : Writes) → Cut k xs ys
take-append k [] ys = beyond k refl (omega arith)
take-append zero (x ∷ xs) ys = within (omega arith) refl
take-append (suc k) (x ∷ xs) ys = elim (take-append k xs ys) [
  | within h e ↦ within (omega (arith, h)) (ap (λ ws. x ∷ ws) e)
  | beyond past e h ↦ beyond past (ap (λ ws. x ∷ ws) e) (omega (arith, h))
]

pub take-nil : (k : ℕ) (w : ℕ × Block) → take (suc k) (w ∷ []) ≡ w ∷ []
take-nil zero w = refl
take-nil (suc k) w = refl

pub take-none : (k : ℕ) (ws : Writes) → ws ≡ [] → take k ws ≡ []
take-none zero ws e = refl
take-none (suc k) [] e = refl
take-none (suc k) (w ∷ ws) e = absurd (ground (arith, e))

pub All-take {κ} : (P : ℕ × Block → Type κ) (k : ℕ) (ws : Writes) → All P ws → All P (take k ws)
All-take P zero ws h = tt
All-take P (suc k) [] h = tt
All-take P (suc k) (w ∷ ws) (h, hs) = (h, All-take P k ws hs)

pub length-log_writes :
    (start tail : ℕ) (bs : List ℕ) (c : Blocks) → length (log_writes start tail bs c) ≡ length bs
unfolding log_writes
length-log_writes start tail [] c = refl
length-log_writes start tail (b ∷ bs) c = ap suc (length-log_writes start (suc tail) bs c)
