-- ===== src/Kernel/Bio/Unique.antt =====
-- Which buffer `bget` of kernel/bio.c takes, and that no block has two buffers.
use system_call_enhancement.Base.{
  ℕ, zero, suc, ◌+◌, ◌%◌, Bool, ◌≤◌, ◌<◌, ◌==◌, if◌then◌else◌, true, false, List, [], ◌∷◌, ◌++◌,
  none, some, All, ◌≡◌, ◌≢◌, refl, arith, ap, ap₂, sym, ◌∙◌, Bool-cases, Option-cases, inl, inr,
}
use system_call_enhancement.Kernel.Bio.{
  Buf, binit_from, binit, is_block, Picked, find_cached, recycle, bget, unlink, change, find_slot,
  drop_ref, add_ref, brelse, bpin, bunpin,
}

-- What `bget` does: it takes the buffer of the block, or else, when there is none, the unused
-- buffer that was used the longest ago, or else it panics.
pub data Got (dev blockno : ℕ) (bs : List Buf) (out : Picked) : Type 0 where
  cached :
      (xs ys : List Buf) (b : Buf)
      → bs ≡ xs ++ (b ∷ ys)
      → All (λ x. is_block dev blockno x ≡ false) xs
      → is_block dev blockno b ≡ true
      → out ≡ some (b.slot, xs ++ (record b { refcnt = (b.refcnt + 1) % 4294967296 } ∷ ys))
      → Got dev blockno bs out
  recycled :
      (xs ys : List Buf) (b : Buf)
      → bs ≡ xs ++ (b ∷ ys)
      → All (λ x. is_block dev blockno x ≡ false) bs
      → b.refcnt ≡ 0
      → All (λ x. 0 < x.refcnt) ys
      → out
        ≡ some (
          b.slot,
          xs ++ (record b { dev = dev; blockno = blockno; valid = false; refcnt = 1 } ∷ ys),
        )
      → Got dev blockno bs out
  panicked :
      All (λ x. is_block dev blockno x ≡ false) bs
      → All (λ x. 0 < x.refcnt) bs
      → out ≡ none
      → Got dev blockno bs out

data Found (dev blockno : ℕ) (bs : List Buf) : Type 0 where
  hit :
      (xs ys : List Buf) (b : Buf)
      → bs ≡ xs ++ (b ∷ ys)
      → All (λ x. is_block dev blockno x ≡ false) xs
      → is_block dev blockno b ≡ true
      → find_cached dev blockno bs
        ≡ some (b.slot, xs ++ (record b { refcnt = (b.refcnt + 1) % 4294967296 } ∷ ys))
      → Found dev blockno bs
  miss :
      All (λ x. is_block dev blockno x ≡ false) bs
      → find_cached dev blockno bs ≡ none
      → Found dev blockno bs

find_cached-Found : (dev blockno : ℕ) (bs : List Buf) → Found dev blockno bs
unfolding find_cached
find_cached-Found dev blockno [] = miss tt refl
find_cached-Found dev blockno (b ∷ bs) =
    let rest = find_cached-Found dev blockno bs in
    elim (Bool-cases (is_block dev blockno b)) [
      | inl e ↦ hit [] bs b refl tt e (rw (find_cached, e) refl)
      | inr e ↦ elim rest [
        | hit xs ys c q h k f ↦
            hit (b ∷ xs) ys c (ap (λ zs. b ∷ zs) q) (e, h) k (rw (find_cached, e, f) refl)
        | miss h f ↦ miss (e, h) (rw (find_cached, e, f) refl)
      ]
    ]

data Recycled (dev blockno : ℕ) (bs : List Buf) : Type 0 where
  taken :
      (xs ys : List Buf) (b : Buf)
      → bs ≡ xs ++ (b ∷ ys)
      → b.refcnt ≡ 0
      → All (λ x. 0 < x.refcnt) ys
      → recycle dev blockno bs
        ≡ some (
          b.slot,
          xs ++ (record b { dev = dev; blockno = blockno; valid = false; refcnt = 1 } ∷ ys),
        )
      → Recycled dev blockno bs
  all_used : All (λ x. 0 < x.refcnt) bs → recycle dev blockno bs ≡ none → Recycled dev blockno bs

recycle-Recycled : (dev blockno : ℕ) (bs : List Buf) → Recycled dev blockno bs
unfolding recycle
recycle-Recycled dev blockno [] = all_used tt refl
recycle-Recycled dev blockno (b ∷ bs) = elim (recycle-Recycled dev blockno bs) [
  | taken xs ys c q r h f ↦ taken (b ∷ xs) ys c (ap (λ zs. b ∷ zs) q) r h (rw (recycle, f) refl)
  | all_used h f ↦ elim (Bool-cases (b.refcnt == 0)) [
    | inl e ↦ taken [] bs b refl (ground (arith, e)) h (rw (recycle, f, e) refl)
    | inr e ↦ all_used (ground (arith, e), h) (rw (recycle, f, e) refl)
  ]
]

-- `bget` takes the first buffer that holds the block and counts one more use of it. When no buffer
-- holds the block, it takes the last of the list that is unused, for the block, not valid and used
-- once; it panics exactly when all are in use. No other buffer changes, and the order stays.
pub bget-Got : (dev blockno : ℕ) (bs : List Buf) → Got dev blockno bs (bget dev blockno bs)
unfolding bget
bget-Got dev blockno bs = elim (find_cached-Found dev blockno bs) [
  | hit xs ys b q h k f ↦ cached xs ys b q h k (rw (bget, f) refl)
  | miss h f ↦ elim (recycle-Recycled dev blockno bs) [
    | taken xs ys b q r u g ↦ recycled xs ys b q h r u (rw (bget, f, g) refl)
    | all_used u g ↦ panicked h u (rw (bget, f, g) refl)
  ]
]

-- The number of buffers of a block
abbrev pub copies : (dev blockno : ℕ) → List Buf → ℕ
copies dev blockno [] = 0
copies dev blockno (b ∷ bs) = (if is_block dev blockno b then 1 else 0) + copies dev blockno bs

copies-append : (d n : ℕ) (xs ys : List Buf) → copies d n (xs ++ ys) ≡ copies d n xs + copies d n ys
copies-append d n [] ys = omega arith
copies-append d n (x ∷ xs) ys = omega (arith, copies-append d n xs ys)

-- One call
pub data Step (bs : List Buf) : List Buf → Type 0 where
  get : (dev blockno i : ℕ) (cs : List Buf) → bget dev blockno bs ≡ some (i, cs) → Step bs cs
  release : (held : Bool) (i : ℕ) (cs : List Buf) → brelse held i bs ≡ some cs → Step bs cs
  pin : (i : ℕ) → Step bs (bpin i bs)
  unpin : (i : ℕ) → Step bs (bunpin i bs)

pub data Reach (bs : List Buf) : List Buf → Type 0 where
  here : Reach bs bs
  next : {cs ds : List Buf} → Reach bs cs → Step cs ds → Reach bs ds

copies-binit_from :
    (d n k i : ℕ) (bs : List Buf) → d ≢ 0 → copies d n (binit_from k i bs) ≡ copies d n bs
unfolding binit_from
copies-binit_from d n zero i bs h = refl
copies-binit_from d n (suc k) i bs h =
    copies-binit_from d n k (suc i)
      (record { slot = i; dev = 0; blockno = 0; valid = false; refcnt = 0 } ∷ bs) h
    ∙ ground (arith, h)

copies-change :
    (d n : ℕ) (g : Buf → Buf) (i : ℕ) (bs : List Buf)
    → ((b : Buf) → is_block d n (g b) ≡ is_block d n b)
    → copies d n (change g i bs) ≡ copies d n bs
copies-change d n g i [] h = refl
copies-change d n g i (b ∷ bs) h = elim (Bool-cases (b.slot == i)) [
  | inl e ↦ rw e (ap (λ t. (if t then 1 else 0) + copies d n bs) (h b))
  | inr e ↦ rw e (ap (λ m. (if is_block d n b then 1 else 0) + m) (copies-change d n g i bs h))
]

copies-unlink :
    (d n i : ℕ) (bs : List Buf) {b : Buf}
    → find_slot i bs ≡ some b
    → copies d n (drop_ref b ∷ unlink i bs) ≡ copies d n bs
copies-unlink d n i [] e = absurd (ground (arith, e))
copies-unlink d n i (c ∷ bs) {b} e =
    let rest = copies-unlink d n i bs {b = b} in
    elim (Bool-cases (c.slot == i)) [
      | inl f ↦
          let e₁ : some c ≡ some b = rw f at e in
          let same : b ≡ c = cc in
          rw f (ap (λ (x : Buf). (if is_block d n x then 1 else 0) + copies d n bs) same)
      | inr f ↦ let e₁ : find_slot i bs ≡ some b = rw f at e in rw f (omega (arith, rest e₁))
    ]

copies-brelse :
    (d n i : ℕ) (held : Bool) (bs cs : List Buf)
    → brelse held i bs ≡ some cs
    → copies d n cs ≡ copies d n bs
unfolding brelse
copies-brelse d n i false bs cs h = elim (Option-cases (find_slot i bs)) [
  | inl e ↦ let bad : none ≡ some cs = rw (brelse, e) at h in absurd cc
  | inr (b, e) ↦ let bad : none ≡ some cs = rw (brelse, e) at h in absurd cc
]
copies-brelse d n i true bs cs h = elim (Option-cases (find_slot i bs)) [
  | inl e ↦ let bad : none ≡ some cs = rw (brelse, e) at h in absurd cc
  | inr (b, e) ↦ elim (Bool-cases ((drop_ref b).refcnt == 0)) [
    | inl f ↦
        let r : some (drop_ref b ∷ unlink i bs) ≡ some cs = rw (brelse, e, f) at h in
        let same : cs ≡ drop_ref b ∷ unlink i bs = cc in
        ap (copies d n) same ∙ copies-unlink d n i bs {b = b} e
    | inr f ↦
        let r : some (change drop_ref i bs) ≡ some cs = rw (brelse, e, f) at h in
        let same : cs ≡ change drop_ref i bs = cc in
        ap (copies d n) same ∙ copies-change d n drop_ref i bs (λ _. refl)
  ]
]

copies-absent : (d n : ℕ) (bs : List Buf) → All (λ x. is_block d n x ≡ false) bs → copies d n bs ≡ 0
copies-absent d n [] h = refl
copies-absent d n (b ∷ bs) (h, hs) = rw h (omega (arith, copies-absent d n bs hs))

abbrev Unique : List Buf → Type 0
Unique bs = (d n : ℕ) → d ≢ 0 → copies d n bs ≤ 1

bget-Unique :
    (dev blockno i : ℕ) (bs cs : List Buf)
    → Unique bs
    → bget dev blockno bs ≡ some (i, cs)
    → Unique cs
bget-Unique dev blockno i bs cs u e d n h = elim (bget-Got dev blockno bs) [
  | panicked _ _ f ↦ absurd (ground (arith, sym f ∙ e))
  | cached xs ys b q _ _ f ↦
      let same : xs ++ (record b { refcnt = (b.refcnt + 1) % 4294967296 } ∷ ys) ≡ cs = cc in
      omega (
        arith,
        u d n h,
        ap (copies d n) q,
        ap (copies d n) (sym same),
        copies-append d n xs (b ∷ ys),
        copies-append d n xs (record b { refcnt = (b.refcnt + 1) % 4294967296 } ∷ ys),
      )
  | recycled xs ys b q absent _ _ f ↦
      let fresh : Buf = record b { dev = dev; blockno = blockno; valid = false; refcnt = 1 } in
      let same : xs ++ (fresh ∷ ys) ≡ cs = cc in
      let none_before = copies-absent dev blockno bs absent in
      let split = copies-append d n xs (b ∷ ys) in
      let split₁ = copies-append d n xs (fresh ∷ ys) in
      let before = ap (copies d n) q in
      let after : copies d n (xs ++ (fresh ∷ ys)) ≡ copies d n cs = ap (copies d n) same in
      elim (Bool-cases (is_block d n fresh)) [
        | inl g ↦
            let none_of_it : copies d n bs ≡ 0 =
              ap₂ (λ x y. copies x y bs) (ground (arith, g)) (ground (arith, g)) ∙ none_before in
            let one : copies d n (fresh ∷ ys) ≡ 1 + copies d n ys = rw g refl in
            omega (arith, none_of_it, split, split₁, before, after, one)
        | inr g ↦
            let none_more : copies d n (fresh ∷ ys) ≡ 0 + copies d n ys = rw g refl in
            omega (arith, u d n h, split, split₁, before, after, none_more)
      ]
]

Step-Unique : {bs cs : List Buf} → Step bs cs → Unique bs → Unique cs
unfolding bpin bunpin
Step-Unique {bs} {cs} (get dev blockno i _ e) u d n h = bget-Unique dev blockno i bs cs u e d n h
Step-Unique {bs} {cs} (release held i _ e) u d n h =
    omega (arith, u d n h, copies-brelse d n i held bs cs e)
Step-Unique {bs} (pin i) u d n h =
    omega (arith, u d n h, copies-change d n add_ref i bs (λ _. refl))
Step-Unique {bs} (unpin i) u d n h =
    omega (arith, u d n h, copies-change d n drop_ref i bs (λ _. refl))

Reach-Unique : {bs cs : List Buf} → Reach bs cs → Unique bs → Unique cs
Reach-Unique here u = u
Reach-Unique (next r st) u = Step-Unique st (Reach-Unique r u)

-- After any sequence of calls of bget, brelse, bpin and bunpin that do not panic behind `binit`, a block of a device
-- other than 0 has at most one buffer. (The buffers that `binit` leaves are all for block 0 of
-- device 0, which no disk is.)
pub one_buffer :
    (bs : List Buf) (dev blockno : ℕ) → Reach binit bs → dev ≢ 0 → copies dev blockno bs ≤ 1
unfolding binit
one_buffer bs dev blockno r h =
    Reach-Unique r (λ d n k. omega (arith, copies-binit_from d n 30 0 [] k)) dev blockno h
