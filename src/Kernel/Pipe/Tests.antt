-- ===== src/Kernel/Pipe/Tests.antt =====
-- A ring whose counters are about to wrap, and a reader and a writer that wait for each other.
use system_call_enhancement.Base.{
  ℕ, ◌+◌, leb, true, false, List, [], ◌∷◌, ◌++◌, Option, some, ◌≡◌, refl, arith, ◌&&◌,
}
use system_call_enhancement.Kernel.Pipe.{
  Pipe, pipe_init, push, failed, write_from, pipewrite, piperead,
}
use system_call_enhancement.Kernel.Pipe.Queue.{Queue, put, get}
use system_call_enhancement.Kernel.Pipe.Refinement.{
  Holds, Represents, Agree, Beside, pipewrite-put, piperead-get,
}
use system_call_enhancement.Kernel.Pipe.Wakeup.{
  System, read, write, Reach, here, next, after_read, after_write, implied, must_wait, is_full,
  no_lost_wakeup,
}

-- One byte in place 511, with `nwrite` back at 0.
abbrev ring : Pipe
ring = record {
  data_ = λ _. 7;
  nread = 4294967295;
  nwrite = 0;
  readopen = true;
  writeopen = true;
  woken = [];
}

abbrev one_item : Queue
one_item = record { items = 7 ∷ []; readopen = true; writeopen = true; woken = [] }

ring-Represents : Represents ring one_item
unfolding Holds
ring-Represents = record {
  bounded = omega arith;
  count = refl;
  room = omega arith;
  holds = (refl, tt);
  readopen = refl;
  writeopen = refl;
  woken = refl;
}

-- Three bytes of user memory
abbrev user_byte : ℕ → Option ℕ
user_byte a = some (a + 1)

abbrev keep : ℕ → ℕ → List ℕ → Option (List ℕ)
keep a ch m = some (m ++ (ch ∷ []))

pipewrite-put_example :
    Agree Represents
      (pipewrite user_byte (λ _. false) 100 3 ring)
      (put user_byte (λ _. false) 100 3 0 one_item)
pipewrite-put_example = pipewrite-put user_byte (λ _. false) 100 3 ring one_item ring-Represents

piperead-get_example :
    Agree Beside (piperead keep false 200 2 ring []) (get keep false 200 2 one_item [])
piperead-get_example = piperead-get keep false 200 2 ring one_item [] ring-Represents

abbrev empty : System
empty = record { pipe = pipe_init (λ _. 0); readers = false; writers = false }

abbrev reader_waits : System
reader_waits = after_read empty (piperead keep false 200 2 (record empty.pipe { woken = [] }) [])

abbrev written : System
written =
    after_write reader_waits
      (write_from user_byte (λ _. false) 100 3 0 (record reader_waits.pipe { woken = [] }))

written-Reach : Reach empty written
written-Reach =
    next (next here (read empty keep false 200 2 [])) (write reader_waits user_byte false 100 3 0)

no_lost_wakeup_example :
    (implied written.readers (must_wait written.pipe) ≡ true)
    × (implied written.writers (is_full written.pipe && written.pipe.readopen) ≡ true)
no_lost_wakeup_example = no_lost_wakeup (λ _. 0) written written-Reach

-- A writer that is killed behind its first byte wakes up no reader.
killed_writer :
    pipewrite user_byte (leb 1) 100 3 (pipe_init (λ _. 0)) ≡ failed (push 101 (pipe_init (λ _. 0)))
unfolding pipewrite write_from
killed_writer = refl
