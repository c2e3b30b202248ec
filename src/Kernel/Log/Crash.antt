-- ===== src/Kernel/Log/Crash.antt =====
-- A crash between the disk writes of `commit` of kernel/log.c, and the recovery behind it.
use system_call_enhancement.Base.{
  ℕ, zero, suc, ◌+◌, ◌<◌, ◌==◌, leb, if◌then◌else◌, true, false, List, [], ◌∷◌, ◌++◌, length, take,
  get_elem?, some, All, ◌≡◌, ◌≢◌, inl, inr, refl, arith, ap, sym, ◌∙◌, append-nil, Bool-cases,
  lt-length_of_get_elem?,
}
use system_call_enhancement.Kernel.Log.{
  Block, Blocks, Log, State, update, commit, is_logged, read_blocks,
}
use system_call_enhancement.Kernel.Log.Writes.{
  apply, apply-append, IsHome, log_writes, install_writes, home_writes, update_same, update_other,
  apply-other, log_writes-home, log_writes-below, install_writes-log_writes, log_writes-get_elem?,
  home_writes-lem, if_same, nil_of_length,
}
use system_call_enhancement.Kernel.Log.Recovery.{recovered, named, recovered-home}
use system_call_enhancement.Kernel.Log.Commit.{Committed, commit-Committed}
use system_call_enhancement.Kernel.Log.Prefix.{
  Writes, take-append, take-nil, take-none, All-take, length-log_writes, within, beyond,
}

-- The home writes go to logged home blocks.
home_writes-logged :
    (bs : List ℕ) (c : Blocks) (a : ℕ)
    → is_logged a bs ≡ false
    → All (λ w. w.0 ≢ a) (home_writes bs c)
unfolding home_writes
home_writes-logged [] c a h = tt
home_writes-logged (b ∷ bs) c a h =
    ((λ e. ground (arith, h, e)), home_writes-logged bs c a (ground (arith, h)))

home_writes-ne :
    (bs : List ℕ) (c : Blocks) (a : ℕ) → All (λ b. b ≢ a) bs → All (λ w. w.0 ≢ a) (home_writes bs c)
unfolding home_writes
home_writes-ne [] c a h = tt
home_writes-ne (b ∷ bs) c a (h, hs) = (h, home_writes-ne bs c a hs)

home-ne :
    (l : Log) (k a : ℕ) (bs : List ℕ)
    → a ≡ l.start + k
    → k < l.size
    → All (IsHome l) bs
    → All (λ b. b ≢ a) bs
home-ne l k a [] e h f = tt
home-ne l k a (b ∷ bs) e h (f, fs) = ((λ q. f k h (sym (q ∙ e))), home-ne l k a bs e h fs)

-- Home blocks of a disk whose header names none stay as they are.
recovered-none :
    (l : Log) (d : Blocks) (a : ℕ)
    → named (d l.start) ≡ []
    → 0 < l.size
    → IsHome l a
    → recovered l d a ≡ d a
unfolding install_writes apply
recovered-none l d a e h fa = recovered-home l d [] a e h tt fa

-- The home blocks with every logged block in place.
abbrev pub committed : State → Blocks → Blocks
committed s d a = if is_logged a s.log.blocks then s.contents a else d a

module _ (s : State) (d : Blocks) (room : length s.log.blocks < s.log.size)
    (home : All (IsHome s.log) s.log.blocks) (empty : d s.log.start 0 ≡ 0) where
  abbrev L : Writes
  L = log_writes s.log.start 0 s.log.blocks s.contents

  abbrev H : Writes
  H = home_writes s.log.blocks s.contents

  -- Before the header is written.
  before_head :
      (ws : Writes)
      → All (λ w. w.0 ≢ s.log.start) ws
      → (a : ℕ) → IsHome s.log a
      → All (λ w. w.0 ≢ a) ws
      → recovered s.log (apply ws d) a ≡ d a
  unfolding read_blocks
  before_head ws quiet a fa other =
      let same = apply-other ws d s.log.start quiet in
      let none_named : named (apply ws d s.log.start) ≡ [] =
        ap named same ∙ ap (λ n. read_blocks n 1 (d s.log.start)) empty in
      recovered-none s.log (apply ws d) a none_named (omega (arith, room)) fa
      ∙ apply-other ws d a other

  -- The disk behind the header.
  abbrev behind : Block → Blocks
  behind header = update (apply L d) s.log.start header

  behind-home : (header : Block) (a : ℕ) → IsHome s.log a → behind header a ≡ d a
  behind-home header a fa =
      update_other (apply L d) s.log.start header a
        (λ e. fa 0 (omega (arith, room)) (omega (arith, e)))
      ∙ apply-other L d a
          (log_writes-home s.log 0 s.log.blocks s.contents a (omega (arith, room)) fa)

  head-ne : All (λ b. b ≢ s.log.start) s.log.blocks
  head-ne = home-ne s.log 0 s.log.start s.log.blocks (omega arith) (omega (arith, room)) home

  apply-behind :
      (header : Block) (ws : Writes)
      → apply (L ++ ((s.log.start, header) ∷ ws)) d ≡ apply ws (behind header)
  unfolding apply
  apply-behind header ws = apply-append L ((s.log.start, header) ∷ ws) d

  -- The log blocks are still there.
  log_block :
      (header : Block) (ws : Writes)
      → ((a : ℕ) → All (λ b. b ≢ a) s.log.blocks → All (λ w. w.0 ≢ a) ws)
      → (k b : ℕ) → get_elem? s.log.blocks k ≡ some b
      → apply ws (behind header) (s.log.start + (0 + k) + 1) ≡ s.contents b
  log_block header ws quiet k b e =
      let at_k = s.log.start + (0 + k) + 1 in
      let lt = lt-length_of_get_elem? s.log.blocks k e in
      apply-other ws (behind header) at_k (
        quiet at_k
          (home-ne s.log (k + 1) at_k s.log.blocks (omega arith) (omega (arith, lt, room)) home))
      ∙ update_other (apply L d) s.log.start header at_k (λ q. omega (arith, q))
      ∙ log_writes-get_elem? s.log.start 0 s.log.blocks s.contents d k b e

  -- After it, with some of the installation.
  after_head :
      (header : Block) (ws : Writes)
      → named header ≡ s.log.blocks
      → ((a : ℕ) → All (λ b. b ≢ a) s.log.blocks → All (λ w. w.0 ≢ a) ws)
      → ((a : ℕ) → is_logged a s.log.blocks ≡ false → All (λ w. w.0 ≢ a) ws)
      → (a : ℕ) → IsHome s.log a
      → recovered s.log (apply (L ++ ((s.log.start, header) ∷ ws)) d) a ≡ committed s d a
  after_head header ws names quiet unlogged a fa =
      let D = apply ws (behind header) in
      let names_D =
        ap named (
          apply-other ws (behind header) s.log.start (quiet s.log.start head-ne)
          ∙ update_same (apply L d) s.log.start header)
        ∙ names in
      ap (λ x. recovered s.log x a) (apply-behind header ws)
      ∙ recovered-home s.log D s.log.blocks a names_D room home fa
      ∙ ap (λ xs. apply xs D a)
          (install_writes-log_writes s.log.start 0 s.log.blocks s.contents D
            (log_block header ws quiet))
      ∙ home_writes-lem s.log.blocks s.contents D a
      ∙ (elim (Bool-cases (is_logged a s.log.blocks)) [
        | inl e ↦ rw e refl
        | inr e ↦ rw e (apply-other ws (behind header) a (unlogged a e) ∙ behind-home header a fa)
      ])

  -- After the header is cleared.
  after_clear :
      (header cleared : Block)
      → named cleared ≡ []
      → (a : ℕ) → IsHome s.log a
      → recovered s.log
          (apply (L ++ ((s.log.start, header) ∷ (H ++ ((s.log.start, cleared) ∷ [])))) d)
          a
        ≡ committed s d a
  unfolding apply
  after_clear header cleared no_names a fa =
      let D = apply (H ++ ((s.log.start, cleared) ∷ [])) (behind header) in
      let end : D ≡ update (apply H (behind header)) s.log.start cleared =
        apply-append H ((s.log.start, cleared) ∷ []) (behind header) in
      let names_D =
        ap (λ x. named (x s.log.start)) end
        ∙ ap named (update_same (apply H (behind header)) s.log.start cleared)
        ∙ no_names in
      ap (λ x. recovered s.log x a) (apply-behind header (H ++ ((s.log.start, cleared) ∷ [])))
      ∙ recovered-none s.log D a names_D (omega (arith, room)) fa
      ∙ ap (λ x. x a) end
      ∙ update_other (apply H (behind header)) s.log.start cleared a
          (λ e. fa 0 (omega (arith, room)) (omega (arith, e)))
      ∙ home_writes-lem s.log.blocks s.contents (behind header) a
      ∙ (elim (Bool-cases (is_logged a s.log.blocks)) [
        | inl e ↦ rw e refl
        | inr e ↦ rw e (behind-home header a fa)
      ])

  -- Some of the writes behind the header.
  behind_head :
      (header cleared : Block)
      → named header ≡ s.log.blocks
      → named cleared ≡ []
      → (k a : ℕ) → IsHome s.log a
      → recovered s.log
          (apply (L ++ ((s.log.start, header) ∷ take k (H ++ ((s.log.start, cleared) ∷ [])))) d)
          a
        ≡ committed s d a
  behind_head header cleared names no_names k a fa =
      elim (take-append k H ((s.log.start, cleared) ∷ [])) [
        | within h e ↦
            ap (λ ws. recovered s.log (apply (L ++ ((s.log.start, header) ∷ ws)) d) a) e
            ∙ after_head header (take k H) names
                (λ b h. All-take (λ w. w.0 ≢ b) k H (home_writes-ne s.log.blocks s.contents b h))
                (λ b h.
                  All-take (λ w. w.0 ≢ b) k H (home_writes-logged s.log.blocks s.contents b h))
                a fa
        | beyond zero e h ↦
            ap (λ ws. recovered s.log (apply (L ++ ((s.log.start, header) ∷ ws)) d) a)
              (e ∙ append-nil H)
            ∙ after_head header H names (λ b h. home_writes-ne s.log.blocks s.contents b h)
                (λ b h. home_writes-logged s.log.blocks s.contents b h) a fa
        | beyond (suc j) e h ↦
            ap (λ ws. recovered s.log (apply (L ++ ((s.log.start, header) ∷ ws)) d) a)
              (e ∙ ap (λ ws. H ++ ws) (take-nil j (s.log.start, cleared)))
            ∙ after_clear header cleared no_names a fa
      ]

  -- Some of the writes of the log.
  in_log : (k a : ℕ) → IsHome s.log a → recovered s.log (apply (take k L) d) a ≡ d a
  in_log k a fa =
      before_head (take k L)
        (All-take (λ w. w.0 ≢ s.log.start) k L
          (log_writes-below s.log.start 0 s.log.blocks s.contents s.log.start (omega arith)))
        a fa
        (All-take (λ w. w.0 ≢ a) k L
          (log_writes-home s.log 0 s.log.blocks s.contents a (omega (arith, room)) fa))

  commit_atomic_some :
      (k a : ℕ)
      → Committed s
      → IsHome s.log a
      → recovered s.log (apply (take k (commit s).writes) d) a
        ≡ (if leb k (length s.log.blocks) then d a else committed s d a)
  commit_atomic_some k a c fa =
      let n = length-log_writes s.log.start 0 s.log.blocks s.contents in
      let behind_log = (s.log.start, c.header) ∷ (H ++ ((s.log.start, c.cleared) ∷ [])) in
      ap (λ ws. recovered s.log (apply (take k ws) d) a) c.writes
      ∙ (elim (take-append k L behind_log) [
        | within h e ↦
            ap (λ ws. recovered s.log (apply ws d) a) e ∙ in_log k a fa ∙ ground (arith, h, n)
        | beyond zero e h ↦
            ap (λ ws. recovered s.log (apply ws d) a) (e ∙ append-nil L)
            ∙ before_head L
                (log_writes-below s.log.start 0 s.log.blocks s.contents s.log.start (omega arith)) a
                fa (log_writes-home s.log 0 s.log.blocks s.contents a (omega (arith, room)) fa)
            ∙ ground (arith, h, n)
        | beyond (suc j) e h ↦
            ap (λ ws. recovered s.log (apply ws d) a) e
            ∙ behind_head c.header c.cleared c.names c.no_names j a fa
            ∙ ground (arith, h, n)
      ])

-- Nothing is logged.
commit_atomic_none :
    (s : State) (d : Blocks) (k a : ℕ)
    → s.writes ≡ []
    → length s.log.blocks < s.log.size
    → d s.log.start 0 ≡ 0
    → IsHome s.log a
    → (length s.log.blocks == 0) ≡ true
    → recovered s.log (apply (take k (commit s).writes) d) a
      ≡ (if leb k (length s.log.blocks) then d a else committed s d a)
unfolding commit apply read_blocks
commit_atomic_none s d k a fresh room empty fa e =
    let no_writes : (commit s).writes ≡ [] = rw e fresh in
    let none : is_logged a s.log.blocks ≡ false = ap (is_logged a) (nil_of_length s.log.blocks e) in
    let same : committed s d a ≡ d a = rw none refl in
    ap (λ ws. recovered s.log (apply ws d) a) (take-none k (commit s).writes no_writes)
    ∙ recovered-none s.log d a (ap (λ n. read_blocks n 1 (d s.log.start)) empty)
        (omega (arith, room)) fa
    ∙ sym (if_same (leb k (length s.log.blocks)) same)

-- A commit is atomic. The header on the disk names no block, and the log has room for the blocks of
-- `lh` and these lie outside it. Whatever number k of the writes of `commit` reach the disk before
-- a crash, recovery leaves each home block as it was on the disk when k is at most the number of
-- blocks, so that the header is not yet written, and from the write of the header on it leaves
-- every logged block with its new contents and the others as they were.
pub commit_atomic :
    (s : State) (d : Blocks) (k a : ℕ)
    → s.writes ≡ []
    → length s.log.blocks < s.log.size
    → All (IsHome s.log) s.log.blocks
    → d s.log.start 0 ≡ 0
    → IsHome s.log a
    → recovered s.log (apply (take k (commit s).writes) d) a
      ≡ (if leb k (length s.log.blocks) then d a else committed s d a)
commit_atomic s d k a fresh room home empty fa = elim (Bool-cases (length s.log.blocks == 0)) [
  | inr e ↦ commit_atomic_some s d room home empty k a (commit-Committed s room home fresh e) fa
  | inl e ↦ commit_atomic_none s d k a fresh room empty fa e
]
