-- ===== src/Kernel/Log/Commit.antt =====
-- The disk writes of `commit` of kernel/log.c, in their order.
use system_call_enhancement.Base.{
  ℕ, ◌+◌, ◌<◌, ◌==◌, false, List, [], ◌∷◌, ◌++◌, length, get_elem?, some, All, ◌≡◌, arith, ap, ap₂,
  sym, subst, ◌∙◌, append_assoc,
}
use system_call_enhancement.Kernel.Log.{
  Block, Blocks, Log, State, update, install_from, install_trans, head_block, write_head,
  clear_blocks, write_log_from, write_log, commit,
}
use system_call_enhancement.Kernel.Log.Writes.{
  apply, IsHome, log_writes, install_writes, home_writes, Wrote, update_other, write_log_from-Wrote,
  install_from-Wrote, install_writes-log_writes, log_writes-get_elem?,
}
use system_call_enhancement.Kernel.Log.Recovery.{named, named-head_block, write_head-Wrote}

-- What `commit` writes: the log, its header with the blocks, the blocks, and a header with none.
pub record Committed (s : State) : Type 0 where
  pub header : Block
  pub cleared : Block
  pub names : named header ≡ s.log.blocks
  pub no_names : named cleared ≡ []
  pub writes :
      (commit s).writes
      ≡ log_writes s.log.start 0 s.log.blocks s.contents
        ++ ((s.log.start, header)
            ∷ (home_writes s.log.blocks s.contents ++ ((s.log.start, cleared) ∷ [])))

-- The log blocks after `write_log` and `write_head`, for what the blocks held before.
logged_contents :
    (start : ℕ) (bs : List ℕ) (c : Blocks) (hb : Block) (k b : ℕ)
    → get_elem? bs k ≡ some b
    → update (apply (log_writes start 0 bs c) c) start hb (start + (0 + k) + 1) ≡ c b
logged_contents start bs c hb k b e =
    update_other (apply (log_writes start 0 bs c) c) start hb (start + (0 + k) + 1)
      (λ q. omega (arith, q))
    ∙ log_writes-get_elem? start 0 bs c c k b e

-- The states of `commit` behind `write_log`, behind the first `write_head`, and behind
-- `install_trans`.
abbrev logged : State → State
logged s = write_log_from 0 s.log.blocks s

abbrev headed : State → State
headed s = write_head (logged s)

abbrev installed : State → State
installed s = install_from false 0 (headed s).log.blocks (headed s)

abbrev header_of : State → Block
header_of s = head_block (logged s).log.blocks ((logged s).contents (logged s).log.start)

module _ (s : State) (room : length s.log.blocks < s.log.size)
    (home : All (IsHome s.log) s.log.blocks) where
  logged-Wrote : Wrote s (logged s) (log_writes s.log.start 0 s.log.blocks s.contents)
  logged-Wrote = write_log_from-Wrote 0 s.log.blocks s (omega (arith, room)) home

  headed-log : (headed s).log ≡ s.log
  headed-log = (write_head-Wrote (logged s)).log ∙ logged-Wrote.log

  headed-contents :
      (headed s).contents
      ≡ update
          (apply (log_writes s.log.start 0 s.log.blocks s.contents) s.contents)
          s.log.start
          (header_of s)
  unfolding apply
  headed-contents =
      (write_head-Wrote (logged s)).contents
      ∙ ap (λ c. update c (logged s).log.start (header_of s)) logged-Wrote.contents
      ∙ ap
          (λ (l : Log).
            update (apply (log_writes s.log.start 0 s.log.blocks s.contents) s.contents) l.start
              (header_of s))
          logged-Wrote.log

  installed-Wrote : Wrote (headed s) (installed s) (home_writes s.log.blocks s.contents)
  installed-Wrote =
      subst (λ ws. Wrote (headed s) (installed s) ws)
        (ap (λ (l : Log). install_writes l.start 0 l.blocks (headed s).contents) headed-log
          ∙ install_writes-log_writes s.log.start 0 s.log.blocks s.contents (headed s).contents
              (λ k b e.
                ap (λ f. f (s.log.start + (0 + k) + 1)) headed-contents
                ∙ logged_contents s.log.start s.log.blocks s.contents (header_of s) k b e))
        (install_from-Wrote false 0 (headed s).log.blocks (headed s)
          (subst (λ (l : Log). 0 + length l.blocks < l.size) (sym headed-log) (omega (arith, room)))
          (subst (λ (l : Log). All (IsHome l) l.blocks) (sym headed-log) home))

  commit-writes :
      s.writes ≡ []
      → (write_head (clear_blocks (installed s))).writes
        ≡ log_writes s.log.start 0 s.log.blocks s.contents
          ++ ((s.log.start, header_of s)
              ∷ (home_writes s.log.blocks s.contents
                  ++ ((s.log.start, head_block [] ((installed s).contents (installed s).log.start))
                      ∷ [])))
  commit-writes fresh =
      let start_of = λ (l : Log). l.start in
      let L = log_writes s.log.start 0 s.log.blocks s.contents in
      let H = home_writes s.log.blocks s.contents in
      let cleared = head_block [] ((installed s).contents (installed s).log.start) in
      let logged_writes = logged-Wrote.writes ∙ ap (λ x. x ++ L) fresh in
      let headed_writes =
        (write_head-Wrote (logged s)).writes
        ∙ ap₂ (λ x b. x ++ ((b, header_of s) ∷ [])) logged_writes (ap start_of logged-Wrote.log) in
      let installed_writes = installed-Wrote.writes ∙ ap (λ x. x ++ H) headed_writes in
      (write_head-Wrote (clear_blocks (installed s))).writes
      ∙ ap₂ (λ x b. x ++ ((b, cleared) ∷ [])) installed_writes
          (ap start_of (installed-Wrote.log ∙ headed-log))
      ∙ append_assoc (L ++ ((s.log.start, header_of s) ∷ [])) H ((s.log.start, cleared) ∷ [])
      ∙ append_assoc L ((s.log.start, header_of s) ∷ []) (H ++ ((s.log.start, cleared) ∷ []))

  pub commit-Committed : s.writes ≡ [] → (length s.log.blocks == 0) ≡ false → Committed s
  unfolding commit write_log install_trans
  commit-Committed fresh some_block = record {
    header = header_of s;
    cleared = head_block [] ((installed s).contents (installed s).log.start);
    names =
        named-head_block (logged s).log.blocks ((logged s).contents (logged s).log.start)
        ∙ ap (λ (l : Log). l.blocks) logged-Wrote.log;
    no_names = named-head_block [] ((installed s).contents (installed s).log.start);
    writes = rw some_block (commit-writes fresh);
  }
