-- ===== src/Kernel/Log/Tests.antt =====
-- A commit of two blocks, an operation that logs one, and a log of the size that mkfs gives it.
use system_call_enhancement.Base.{
  ℕ, ◌+◌, if◌then◌else◌, leb, false, List, [], ◌∷◌, length, take, replicate, none, ◌≡◌, refl, arith,
}
use system_call_enhancement.Kernel.Log.{Blocks, Log, State, commit, begin_op, log_write, bpin}
use system_call_enhancement.Kernel.Log.Writes.{apply, IsHome}
use system_call_enhancement.Kernel.Log.Recovery.{recovered}
use system_call_enhancement.Kernel.Log.Crash.{committed, commit_atomic}
use system_call_enhancement.Kernel.Log.Budgets.{Step, begin, write, here, next}
use system_call_enhancement.Kernel.Log.Reserve.{Safe, log_write-Safe}

-- The super block's log of mkfs/mkfs.c starts at block 2.
abbrev log_of : (size outstanding : ℕ) → List ℕ → Log
log_of size outstanding bs = record {
  start = 2;
  size = size;
  outstanding = outstanding;
  committing = false;
  blocks = bs;
}

abbrev two_blocks : State
two_blocks = record {
  log = log_of 31 0 (40 ∷ 41 ∷ []);
  contents = λ b i. b + i;
  pins = λ _. 1;
  writes = [];
}

abbrev disk : Blocks
disk b i = 0

IsHome-40 : IsHome (log_of 31 0 (40 ∷ 41 ∷ [])) 40
IsHome-40 k h e = omega (arith, h, e)

IsHome-41 : IsHome (log_of 31 0 (40 ∷ 41 ∷ [])) 41
IsHome-41 k h e = omega (arith, h, e)

commit_atomic_example :
    recovered two_blocks.log (apply (take 4 (commit two_blocks).writes) disk) 41
    ≡ (if leb 4 (length two_blocks.log.blocks) then disk 41 else committed two_blocks disk 41)
commit_atomic_example =
    commit_atomic two_blocks disk 4 41 refl (omega arith) (IsHome-40, (IsHome-41, tt)) refl
      IsHome-41

abbrev idle : State
idle = record { log = log_of 31 0 []; contents = λ b i. 0; pins = λ _. 0; writes = [] }

abbrev begun : State
begun = record idle { log = log_of 31 1 [] }

abbrev logged : State
logged = record (bpin 40 idle) { log = log_of 31 1 (40 ∷ []) }

begin_step :
    Step (record { state = idle; budgets = [] }) (record { state = begun; budgets = 10 ∷ [] })
unfolding begin_op
begin_step = begin (record { state = idle; budgets = [] }) begun refl

write_step :
    Step (record { state = begun; budgets = 10 ∷ [] }) (record { state = logged; budgets = 9 ∷ [] })
unfolding log_write
write_step = write (record { state = begun; budgets = 10 ∷ [] }) logged [] [] 9 40 refl refl

log_write-Safe_example : Safe logged
log_write-Safe_example =
    log_write-Safe (record { state = idle; budgets = [] })
      (record { state = logged; budgets = 9 ∷ [] }) [] [] 8 (refl, refl, refl) refl (omega arith)
      (next (next here begin_step) write_step) refl

-- With the size that mkfs gives the log, the thirtieth block is one too many.
abbrev full : State
full = record {
  log = log_of 30 3 (replicate 29 7);
  contents = λ b i. 0;
  pins = λ _. 1;
  writes = [];
}

log_write_full : log_write 40 full ≡ none
unfolding log_write
log_write_full = refl
