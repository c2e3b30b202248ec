-- ===== src/Kernel/Log/Writes.antt =====
-- The sequences of disk writes that the functions of kernel/log.c make, and what a disk holds after
-- them.
use system_call_enhancement.Base.{
  ℕ, zero, suc, ◌+◌, ◌<◌, ◌==◌, if◌then◌else◌, Bool, true, false, List, [], ◌∷◌, ◌++◌, length,
  get_elem?, some, All, ◌≡◌, ◌≢◌, refl, arith, ap, ap₂, sym, ◌∙◌, append_assoc, append-nil,
  Bool-cases, inl, inr,
}
use system_call_enhancement.Kernel.Log.{
  Block, Blocks, Log, State, update, fill, bwrite, bunpin, install_from, write_log_from, is_logged,
}

unfoldable pub apply : List (ℕ × Block) → Blocks → Blocks
apply [] d = d
apply ((b, v) ∷ ws) d = apply ws (update d b v)

pub apply-append :
    (xs ys : List (ℕ × Block)) (d : Blocks) → apply (xs ++ ys) d ≡ apply ys (apply xs d)
unfolding apply
apply-append [] ys d = refl
apply-append ((b, v) ∷ xs) ys d = apply-append xs ys (update d b v)

-- Block a is none of those of the log, the header included.
abbrev pub IsHome : Log → ℕ → Type 0
IsHome l a = (k : ℕ) → k < l.size → l.start + k ≢ a

-- The writes of `write_log`, from `tail` on, for what the blocks hold.
unfoldable pub log_writes : (start tail : ℕ) → List ℕ → Blocks → List (ℕ × Block)
log_writes start tail [] c = []
log_writes start tail (b ∷ bs) c = (start + tail + 1, c b) ∷ log_writes start (suc tail) bs c

-- The writes of `install_trans`.
unfoldable pub install_writes : (start tail : ℕ) → List ℕ → Blocks → List (ℕ × Block)
install_writes start tail [] c = []
install_writes start tail (b ∷ bs) c =
    (b, c (start + tail + 1)) ∷ install_writes start (suc tail) bs c

-- Each block with what it holds.
unfoldable pub home_writes : List ℕ → Blocks → List (ℕ × Block)
home_writes [] c = []
home_writes (b ∷ bs) c = (b, c b) ∷ home_writes bs c

pub update_same {ℓ} : {A : Type ℓ} (f : ℕ → A) (b : ℕ) (v : A) → update f b v b ≡ v
update_same f b v = ground arith

pub update_other {ℓ} :
    {A : Type ℓ} (f : ℕ → A) (b : ℕ) (v : A) (a : ℕ) → b ≢ a → update f b v a ≡ f a
update_other f b v a h = ground arith

-- From s to s' the blocks ws are written, to the buffers and to the disk.
pub record Wrote (s s' : State) (ws : List (ℕ × Block)) : Type 0 where
  pub log : s'.log ≡ s.log
  pub contents : s'.contents ≡ apply ws s.contents
  pub writes : s'.writes ≡ s.writes ++ ws

log_writes-update :
    (start tail : ℕ) (bs : List ℕ) (c : Blocks) (to : ℕ) (v : Block)
    → All (λ b. to ≢ b) bs
    → log_writes start tail bs (update c to v) ≡ log_writes start tail bs c
unfolding log_writes
log_writes-update start tail [] c to v h = refl
log_writes-update start tail (b ∷ bs) c to v (h, hs) =
    ap₂ (λ x ws. (start + tail + 1, x) ∷ ws) (update_other c to v b h)
      (log_writes-update start (suc tail) bs c to v hs)

install_writes-update :
    (start tail : ℕ) (bs : List ℕ) (c : Blocks) (to : ℕ) (v : Block)
    → ((k : ℕ) → k < length bs → start + (tail + 1 + k) ≢ to)
    → install_writes start tail bs (update c to v) ≡ install_writes start tail bs c
unfolding install_writes
install_writes-update start tail [] c to v h = refl
install_writes-update start tail (b ∷ bs) c to v h =
    ap₂ (λ x ws. (b, x) ∷ ws)
      (update_other c to v (start + tail + 1) (λ e. h 0 (omega arith) (omega (arith, e))))
      (install_writes-update start (suc tail) bs c to v
        (λ k lt e. h (suc k) (omega arith) (omega (arith, e))))

-- A log block is no home block.
home-ne :
    (l : Log) (to k : ℕ) (bs : List ℕ)
    → to ≡ l.start + k
    → k < l.size
    → All (IsHome l) bs
    → All (λ b. to ≢ b) bs
home-ne l to k [] e h f = tt
home-ne l to k (b ∷ bs) e h (f, fs) = ((λ q. f k h (sym e ∙ q)), home-ne l to k bs e h fs)

-- A state after the write of one block.
Wrote-first :
    {s s₁ s' : State} (b : ℕ) (v : Block) (ws : List (ℕ × Block))
    → s₁.log ≡ s.log
    → s₁.contents ≡ update s.contents b v
    → s₁.writes ≡ s.writes ++ ((b, update s.contents b v b) ∷ [])
    → Wrote s₁ s' ws
    → Wrote s s' ((b, v) ∷ ws)
unfolding apply
Wrote-first {s} b v ws el ec ew w = record {
  log = w.log ∙ el;
  contents = w.contents ∙ ap (apply ws) ec;
  writes =
      w.writes
      ∙ ap (λ xs. xs ++ ws) (ew ∙ ap (λ x. s.writes ++ ((b, x) ∷ [])) (update_same s.contents b v))
      ∙ append_assoc s.writes ((b, v) ∷ []) ws;
}

pub write_log_from-Wrote :
    (tail : ℕ) (bs : List ℕ) (s : State)
    → tail + length bs < s.log.size
    → All (IsHome s.log) bs
    → Wrote s (write_log_from tail bs s) (log_writes s.log.start tail bs s.contents)
unfolding write_log_from log_writes apply
write_log_from-Wrote tail [] s h f = record {
  log = refl;
  contents = refl;
  writes = sym (append-nil s.writes);
}
write_log_from-Wrote tail (b ∷ bs) s h (f, fs) =
    let to = s.log.start + tail + 1 in
    let s₁ = bwrite to (fill to (s.contents b) s) in
    let r = write_log_from-Wrote (suc tail) bs s₁ (omega arith) fs in
    Wrote-first to (s.contents b) (log_writes s.log.start (suc tail) bs s.contents) refl refl refl (
      rw
        (log_writes-update s.log.start (suc tail) bs s.contents to (s.contents b)
          (home-ne s.log to (tail + 1) bs (omega arith) (omega arith) fs))
        at r)

-- The log blocks that are still to be read, and a home block.
apart :
    (tail : ℕ) (bs : List ℕ) (s : State) (b : ℕ)
    → tail + suc (length bs) < s.log.size
    → IsHome s.log b
    → (k : ℕ) → k < length bs
    → s.log.start + (suc tail + 1 + k) ≢ b
apart tail bs s b h f k lt = f (suc tail + 1 + k) (omega arith)

pub install_from-Wrote :
    (recovering : Bool) (tail : ℕ) (bs : List ℕ) (s : State)
    → tail + length bs < s.log.size
    → All (IsHome s.log) bs
    → Wrote s (install_from recovering tail bs s) (install_writes s.log.start tail bs s.contents)
unfolding install_from install_writes apply
install_from-Wrote recovering tail [] s h f = record {
  log = refl;
  contents = refl;
  writes = sym (append-nil s.writes);
}
install_from-Wrote true tail (b ∷ bs) s h (f, fs) =
    let v = s.contents (s.log.start + tail + 1) in
    let r = install_from-Wrote true (suc tail) bs (bwrite b (fill b v s)) (omega arith) fs in
    Wrote-first b v (install_writes s.log.start (suc tail) bs s.contents) refl refl refl (
      rw (install_writes-update s.log.start (suc tail) bs s.contents b v (apart tail bs s b h f)) at
        r)
install_from-Wrote false tail (b ∷ bs) s h (f, fs) =
    let v = s.contents (s.log.start + tail + 1) in
    let r =
      install_from-Wrote false (suc tail) bs (bunpin b (bwrite b (fill b v s))) (omega arith) fs in
    Wrote-first b v (install_writes s.log.start (suc tail) bs s.contents) refl refl refl (
      rw (install_writes-update s.log.start (suc tail) bs s.contents b v (apart tail bs s b h f)) at
        r)

-- Where a block is not written.
pub apply-other :
    (ws : List (ℕ × Block)) (d : Blocks) (a : ℕ) → All (λ w. w.0 ≢ a) ws → apply ws d a ≡ d a
unfolding apply
apply-other [] d a h = refl
apply-other ((b, v) ∷ ws) d a (h, hs) = apply-other ws (update d b v) a hs ∙ update_other d b v a h

pub log_writes-home :
    (l : Log) (tail : ℕ) (bs : List ℕ) (c : Blocks) (a : ℕ)
    → tail + length bs < l.size
    → IsHome l a
    → All (λ w. w.0 ≢ a) (log_writes l.start tail bs c)
unfolding log_writes
log_writes-home l tail [] c a h f = tt
log_writes-home l tail (b ∷ bs) c a h f = (
  (λ e. f (tail + 1) (omega arith) (omega (arith, e))),
  log_writes-home l (suc tail) bs c a (omega arith) f,
)

pub log_writes-below :
    (start tail : ℕ) (bs : List ℕ) (c : Blocks) (a : ℕ)
    → a < start + tail + 1
    → All (λ w. w.0 ≢ a) (log_writes start tail bs c)
unfolding log_writes
log_writes-below start tail [] c a h = tt
log_writes-below start tail (b ∷ bs) c a h =
    ((λ e. omega (arith, e)), log_writes-below start (suc tail) bs c a (omega arith))

-- What the installation reads after `write_log`: the blocks themselves.
pub install_writes-log_writes :
    (start tail : ℕ) (bs : List ℕ) (c d : Blocks)
    → ((k : ℕ) (b : ℕ) → get_elem? bs k ≡ some b → d (start + (tail + k) + 1) ≡ c b)
    → install_writes start tail bs d ≡ home_writes bs c
unfolding install_writes home_writes
install_writes-log_writes start tail [] c d h = refl
install_writes-log_writes start tail (b ∷ bs) c d h =
    ap₂ (λ x ws. (b, x) ∷ ws) (ap d (omega arith) ∙ h 0 b refl)
      (install_writes-log_writes start (suc tail) bs c d
        (λ k b' e. ap d (omega arith) ∙ h (suc k) b' e))

-- The log block of the k-th block, after `write_log`.
pub log_writes-get_elem? :
    (start tail : ℕ) (bs : List ℕ) (c d : Blocks) (k b : ℕ)
    → get_elem? bs k ≡ some b
    → apply (log_writes start tail bs c) d (start + (tail + k) + 1) ≡ c b
unfolding log_writes apply
log_writes-get_elem? start tail [] c d k b e = absurd (ground arith)
log_writes-get_elem? start tail (b' ∷ bs) c d zero b e =
    let here : start + tail + 1 ≡ start + (tail + 0) + 1 = omega arith in
    let same : b' ≡ b = cc in
    apply-other (log_writes start (suc tail) bs c) (update d (start + tail + 1) (c b'))
      (start + (tail + 0) + 1)
      (log_writes-below start (suc tail) bs c (start + (tail + 0) + 1) (omega arith))
    ∙ ap (update d (start + tail + 1) (c b')) (sym here)
    ∙ update_same d (start + tail + 1) (c b')
    ∙ ap c same
log_writes-get_elem? start tail (b' ∷ bs) c d (suc k) b e =
    ap (apply (log_writes start (suc tail) bs c) (update d (start + tail + 1) (c b'))) (omega arith)
    ∙ log_writes-get_elem? start (suc tail) bs c (update d (start + tail + 1) (c b')) k b e

pub if_same {ℓ} : {A : Type ℓ} (t : Bool) {x y : A} → x ≡ y → (if t then y else x) ≡ y
if_same true e = refl
if_same false e = e

-- The blocks that are installed.
pub home_writes-lem :
    (bs : List ℕ) (c d : Blocks) (a : ℕ)
    → apply (home_writes bs c) d a ≡ (if is_logged a bs then c a else d a)
unfolding home_writes apply
home_writes-lem [] c d a = refl
home_writes-lem (b ∷ bs) c d a =
    home_writes-lem bs c (update d b (c b)) a ∙ (elim (Bool-cases (b == a)) [
      | inl e ↦
          let same : c b ≡ c a = ap c (ground (arith, e)) in rw e (if_same (is_logged a bs) same)
      | inr e ↦ rw e refl
    ])

pub nil_of_length : (bs : List ℕ) → (length bs == 0) ≡ true → bs ≡ []
nil_of_length [] e = refl
nil_of_length (b ∷ bs) e = absurd (ground (arith, e))
