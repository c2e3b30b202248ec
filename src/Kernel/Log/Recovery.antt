-- ===== src/Kernel/Log/Recovery.antt =====
-- What `initlog` of kernel/log.c makes of a disk after a crash.
use system_call_enhancement.Base.{
  ℕ, suc, ◌<◌, true, List, [], ◌∷◌, ◌++◌, length, All, ◌≡◌, ◌≢◌, refl, arith, ap, ap₂, ◌∙◌,
}
use system_call_enhancement.Kernel.Log.{
  Block, Blocks, Log, State, update, install_from, install_trans, read_blocks, store_blocks,
  head_block, read_head, write_head, clear_blocks, recover_from_log,
}
use system_call_enhancement.Kernel.Log.Writes.{
  apply, apply-append, IsHome, install_writes, Wrote, update_same, update_other, install_from-Wrote,
}

-- `initlog` on a disk d, with no block in the cache.
abbrev pub boot : Log → Blocks → State
boot l d = record { log = l; contents = d; pins = λ _. 0; writes = [] }

-- The disk after recovery
abbrev pub recovered : Log → Blocks → Blocks
recovered l d = apply (recover_from_log (boot l d)).writes d

-- A header as it is read and as it was written.
store_blocks-below :
    (i : ℕ) (bs : List ℕ) (hb : Block) (j : ℕ) → j < i → store_blocks i bs hb j ≡ hb j
unfolding store_blocks
store_blocks-below i [] hb j h = refl
store_blocks-below i (b ∷ bs) hb j h =
    store_blocks-below (suc i) bs (update hb i b) j (omega arith)
    ∙ update_other hb i b j (λ e. omega (arith, e))

read_blocks-store_blocks :
    (i : ℕ) (bs : List ℕ) (hb : Block) → read_blocks (length bs) i (store_blocks i bs hb) ≡ bs
unfolding read_blocks store_blocks
read_blocks-store_blocks i [] hb = refl
read_blocks-store_blocks i (b ∷ bs) hb =
    ap₂ (λ x xs. x ∷ xs)
      (store_blocks-below (suc i) bs (update hb i b) i (omega arith) ∙ update_same hb i b)
      (read_blocks-store_blocks (suc i) bs (update hb i b))

-- The blocks that a header names.
abbrev pub named : Block → List ℕ
named hb = read_blocks (hb 0) 1 hb

pub named-head_block : (bs : List ℕ) (hb : Block) → named (head_block bs hb) ≡ bs
named-head_block bs hb =
    let n =
      store_blocks-below 1 bs (update hb 0 (length bs)) 0 (omega arith)
      ∙ update_same hb 0 (length bs) in
    ap (λ k. read_blocks k 1 (head_block bs hb)) n
    ∙ read_blocks-store_blocks 1 bs (update hb 0 (length bs))

pub write_head-Wrote :
    (s : State)
    → Wrote s (write_head s) ((s.log.start, head_block s.log.blocks (s.contents s.log.start)) ∷ [])
unfolding write_head apply
write_head-Wrote s = record {
  log = refl;
  contents = refl;
  writes =
      ap (λ x. s.writes ++ ((s.log.start, x) ∷ []))
        (update_same s.contents s.log.start (head_block s.log.blocks (s.contents s.log.start)));
}

-- The state behind `read_head`
abbrev headed : Log → Blocks → State
headed l d = record (boot l d) { log = record l { blocks = named (d l.start) } }

-- Recovery installs the blocks that the header names, and changes no other home block.
pub recovered-home :
    (l : Log) (d : Blocks) (bs : List ℕ) (a : ℕ)
    → named (d l.start) ≡ bs
    → length bs < l.size
    → All (IsHome l) bs
    → IsHome l a
    → recovered l d a ≡ apply (install_writes l.start 0 bs d) d a
unfolding recover_from_log read_head install_trans apply
recovered-home l d bs a e h f fa =
    let r = install_from true 0 (named (d l.start)) (headed l d) in
    let w =
      install_from-Wrote true 0 (named (d l.start)) (headed l d) (omega (arith, ap length e, h))
        (rw e f) in
    let v = write_head-Wrote (clear_blocks r) in
    let hb = head_block [] (r.contents r.log.start) in
    let iw = install_writes l.start 0 (named (d l.start)) d in
    let not_head : r.log.start ≢ a =
      λ q. fa 0 (omega (arith, h)) (omega (arith, q, ap (λ (x : Log). x.start) w.log)) in
    ap (λ ws. apply ws d a) (v.writes ∙ ap (λ ws. ws ++ ((r.log.start, hb) ∷ [])) w.writes)
    ∙ ap (λ g. g a) (apply-append iw ((r.log.start, hb) ∷ []) d)
    ∙ update_other (apply iw d) r.log.start hb a not_head
    ∙ ap (λ xs. apply (install_writes l.start 0 xs d) d a) e
