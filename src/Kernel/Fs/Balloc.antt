-- ===== src/Kernel/Fs/Balloc.antt =====
-- What `balloc` and `bfree` of kernel/fs.c do to the free map and to the blocks.
use system_call_enhancement.Base.{
  ℕ, zero, suc, ◌+◌, ◌-◌, ◌*◌, ◌/◌, ◌%◌, ◌^◌, ◌==◌, ltb, true, false, ◌<◌, ◌≤◌, [], ◌∷◌, ◌++◌,
  append_assoc, Option, none, some, ◌≡◌, ◌≢◌, refl, sym, ap, ◌∙◌, arith, Bool-cases, inl, inr,
  subst,
}
use system_call_enhancement.Kernel.Fs.{
  Superblock, Disk, bpb, bblock, log_write, bzero, take_bit, balloc_from, balloc, bfree,
}
use system_call_enhancement.Kernel.Fs.Free.{
  in_use, with_byte, set_bit-OneBit, clear_bit-OneBit, all_set, clear, find_bit-Scanned,
}

-- The blocks of the free map are in use themselves.
abbrev pub MapInUse : Superblock → Disk → Type 0
MapInUse sb d = (c : ℕ) → c < sb.size → in_use sb d (bblock c sb) ≡ true

-- What holds of the disk behind a `balloc` that returned b.
pub record Taken (sb : Superblock) (d : Disk) (b : ℕ) (d' : Disk) : Type 0 where
  pub exists : b < sb.size
  pub was_free : in_use sb d b ≡ false
  pub lowest : (c : ℕ) → c < b → in_use sb d c ≡ true
  pub now_used : in_use sb d' b ≡ true
  pub others : (c : ℕ) → c < sb.size → c ≢ b → in_use sb d' c ≡ in_use sb d c
  pub zeroed : (i : ℕ) → (d'.bytes b i ≡ 0) × (d'.words b i ≡ 0)
  pub kept : (c i : ℕ) → c ≢ b → c ≢ bblock b sb → d'.bytes c i ≡ d.bytes c i
  pub kept_words : (c i : ℕ) → c ≢ b → d'.words c i ≡ d.words c i
  pub logged : d'.logged ≡ d.logged ++ (bblock b sb ∷ b ∷ [])

pub data Balloc (sb : Superblock) (d : Disk) (result : ℕ × Disk) : Type 0 where
  full : ((c : ℕ) → c < sb.size → in_use sb d c ≡ true) → result ≡ (0, d) → Balloc sb d result
  taken : (b : ℕ) (d' : Disk) → result ≡ (b, d') → Taken sb d b d' → Balloc sb d result

-- `take_bit` by the number of the block
abbrev marked : Superblock → (b : ℕ) → Disk → Disk
marked sb b d = with_byte sb b (d.bytes (bblock b sb) (b % bpb / 8) + 2 ^ (b % 8)) d

take_bit-marked :
    (b bi : ℕ) (sb : Superblock) (d : Disk)
    → b % bpb ≡ 0
    → bi < bpb
    → take_bit b bi sb d ≡ bzero (b + bi) (log_write (bblock (b + bi) sb) (marked sb (b + bi) d))
unfolding take_bit
take_bit-marked b bi sb d al h =
    let low : (b + bi) % 8 ≡ bi % 8 = omega arith in
    let block : (b + bi) / 8192 ≡ b / 8192 = omega arith in
    let byte : (b + bi) % 8192 / 8 ≡ bi / 8 = omega arith in rw (low, block, byte) refl

-- A block that is zeroed shows nothing of the map, if it is not of the map.
in_use-bzero :
    (sb : Superblock) (b : ℕ) (d : Disk) (c : ℕ)
    → bblock c sb ≢ b
    → in_use sb (bzero b d) c ≡ in_use sb d c
unfolding in_use bzero
in_use-bzero sb b d c h = let e : (bblock c sb == b) ≡ false = ground (arith, h) in rw e refl

in_use-log_write :
    (sb : Superblock) (b : ℕ) (d : Disk) (c : ℕ) → in_use sb (log_write b d) c ≡ in_use sb d c
unfolding in_use
in_use-log_write sb b d c = refl

not_map :
    (sb : Superblock) (d : Disk) (b c : ℕ)
    → MapInUse sb d
    → in_use sb d b ≡ false
    → c < sb.size
    → bblock c sb ≢ b
not_map sb d b c map free h q =
    let bad : true ≡ false = sym (map c h) ∙ ap (in_use sb d) q ∙ free in
    absurd (ground (arith, bad))

marked-Taken :
    (sb : Superblock) (d : Disk) (b : ℕ)
    → MapInUse sb d
    → b < sb.size
    → in_use sb d b ≡ false
    → ((c : ℕ) → c < b → in_use sb d c ≡ true)
    → Taken sb d b (bzero b (log_write (bblock b sb) (marked sb b d)))
unfolding bzero
marked-Taken sb d b map h free below =
    let one = set_bit-OneBit sb d b free in
    let next = log_write (bblock b sb) (marked sb b d) in
    record {
      exists = h;
      was_free = free;
      lowest = below;
      now_used =
          in_use-bzero sb b next b (not_map sb d b b map free h)
          ∙ in_use-log_write sb (bblock b sb) (marked sb b d) b
          ∙ one.self;
      others = λ c p q.
          in_use-bzero sb b next c (not_map sb d b c map free p)
          ∙ in_use-log_write sb (bblock b sb) (marked sb b d) c
          ∙ one.others c q;
      zeroed = λ i. (ground arith, ground arith);
      kept = λ c i p q. ground arith;
      kept_words = λ c i p. ground arith;
      logged = append_assoc d.logged (bblock b sb ∷ []) (b ∷ []);
    }

balloc_from-Balloc :
    (n b : ℕ) (sb : Superblock) (d : Disk)
    → MapInUse sb d
    → b % bpb ≡ 0
    → sb.size ≤ b + n * bpb
    → ((c : ℕ) → c < b → c < sb.size → in_use sb d c ≡ true)
    → Balloc sb d (balloc_from n b sb d)
unfolding balloc_from
balloc_from-Balloc zero b sb d map al fits below =
    full (λ c h. below c (omega (arith, h, fits)) h) refl
balloc_from-Balloc (suc n) b sb d map al fits below =
    elim (find_bit-Scanned sb d bpb 0 b al (omega arith)) [
      | clear i e l r free s ↦
          let lower : (c : ℕ) → c < b + i → in_use sb d c ≡ true = λ c h.
            elim (Bool-cases (ltb c b)) [
              | inl k ↦ below c (ground (arith, k)) (omega (arith, h, r))
              | inr k ↦
                  let back : b + (c - b) ≡ c = ground (arith, k) in
                  subst (λ x. in_use sb d x ≡ true) back
                    (s (c - b) (omega arith) (ground (arith, k, h)))
            ] in
          taken (b + i) (bzero (b + i) (log_write (bblock (b + i) sb) (marked sb (b + i) d)))
            (rw (balloc_from, e)
              (ap (λ x. (b + i, x)) (take_bit-marked b i sb d al (omega (arith, l)))))
            (marked-Taken sb d (b + i) map r free lower)
      | all_set e s ↦
          rw (balloc_from, e)
            (balloc_from-Balloc n (b + bpb) sb d map (omega (arith, al)) (omega (arith, fits))
              (λ c h k. elim (Bool-cases (ltb c b)) [
                | inl q ↦ below c (ground (arith, q)) k
                | inr q ↦
                    let back : b + (c - b) ≡ c = ground (arith, q) in
                    subst (λ x. in_use sb d x ≡ true) back
                      (s (c - b) (omega arith) (ground (arith, q, h)) (omega (arith, back, k)))
              ]))
    ]

-- `balloc` on a disk on which the blocks of the free map are themselves in use: it ends, and
-- returns 0 with the disk as it was only if every block is in use. Otherwise it takes the lowest
-- block that is free: that block is in use from then on and full of zeros, no other block changes
-- its state, and no byte or word changes elsewhere, but for the bytes of the map's block; the block
-- of the map goes to the log first, then the zeroed one.
pub balloc-Balloc : (sb : Superblock) (d : Disk) → MapInUse sb d → Balloc sb d (balloc sb d)
unfolding balloc
balloc-Balloc sb d map =
    balloc_from-Balloc ((sb.size + bpb - 1) / bpb) 0 sb d map (omega arith) (omega arith)
      (λ c h k. absurd (omega (arith, h)))

-- Behind `bfree` of a block that was in use
pub record Freed (sb : Superblock) (d : Disk) (b : ℕ) (d' : Disk) : Type 0 where
  pub now_free : in_use sb d' b ≡ false
  pub others : (c : ℕ) → c ≢ b → in_use sb d' c ≡ in_use sb d c
  pub kept : (c i : ℕ) → c ≢ bblock b sb → d'.bytes c i ≡ d.bytes c i
  pub logged : d'.logged ≡ d.logged ++ (bblock b sb ∷ [])

pub data Bfree (sb : Superblock) (d : Disk) (b : ℕ) (result : Option Disk) : Type 0 where
  panicked : in_use sb d b ≡ false → result ≡ none → Bfree sb d b result
  freed :
      (d' : Disk) → in_use sb d b ≡ true → result ≡ some d' → Freed sb d b d' → Bfree sb d b result

bfree-panic : (sb : Superblock) (d : Disk) (b : ℕ) → in_use sb d b ≡ false → bfree b sb d ≡ none
unfolding bfree in_use
bfree-panic sb d b e = let low : b % bpb % 8 ≡ b % 8 = omega arith in rw (low, e) refl

bfree-clear :
    (sb : Superblock) (d : Disk) (b : ℕ)
    → in_use sb d b ≡ true
    → bfree b sb d
      ≡ some (
          log_write
            (bblock b sb)
            (with_byte sb b (d.bytes (bblock b sb) (b % bpb / 8) - 2 ^ (b % 8)) d))
unfolding bfree in_use
bfree-clear sb d b e = let low : b % bpb % 8 ≡ b % 8 = omega arith in rw (low, e) refl

-- `bfree` panics for a block that is free, and otherwise makes it free, with every other block's
-- state and all bytes outside the block of the map as they were, and gives that block to the log.
pub bfree-Bfree : (sb : Superblock) (d : Disk) (b : ℕ) → Bfree sb d b (bfree b sb d)
bfree-Bfree sb d b = elim (Bool-cases (in_use sb d b)) [
  | inr e ↦ panicked e (bfree-panic sb d b e)
  | inl e ↦
      let one = clear_bit-OneBit sb d b e in
      let next = with_byte sb b (d.bytes (bblock b sb) (b % bpb / 8) - 2 ^ (b % 8)) d in
      freed (log_write (bblock b sb) next) e (bfree-clear sb d b e) (record {
        now_free = in_use-log_write sb (bblock b sb) next b ∙ one.self;
        others = λ c h. in_use-log_write sb (bblock b sb) next c ∙ one.others c h;
        kept = λ c i h. ground arith;
        logged = refl;
      })
]
