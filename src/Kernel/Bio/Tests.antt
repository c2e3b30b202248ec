-- ===== src/Kernel/Bio/Tests.antt =====
-- A cache of three buffers, and the first call on the cache of `binit`.
use system_call_enhancement.Base.{
  ℕ, ◌≤◌, true, false, List, [], ◌∷◌, Option, none, some, ◌≡◌, refl, arith,
}
use system_call_enhancement.Kernel.Bio.{Buf, binit, binit_from, find_cached, recycle, bget, brelse}
use system_call_enhancement.Kernel.Bio.Unique.{copies, Reach, get, release, here, next, one_buffer}

abbrev buf : (slot blockno refcnt : ℕ) → Buf
buf slot blockno refcnt = record {
  slot = slot;
  dev = 1;
  blockno = blockno;
  valid = true;
  refcnt = refcnt;
}

abbrev three : List Buf
three = buf 2 40 1 ∷ buf 0 41 0 ∷ buf 1 42 1 ∷ []

-- Block 50 goes into slot 0.
bget_50 :
    bget 1 50 three ≡ some (0, buf 2 40 1 ∷ record (buf 0 50 1) { valid = false } ∷ buf 1 42 1 ∷ [])
unfolding bget find_cached recycle
bget_50 = refl

abbrev list_of : Option (ℕ × List Buf) → List Buf
list_of none = []
list_of (some (i, bs)) = bs

-- Block 50 of device 1 twice: it goes into slot 0, and is found there.
abbrev once : List Buf
once = list_of (bget 1 50 binit)

abbrev twice : List Buf
twice = list_of (bget 1 50 once)

-- One of its users calls `brelse`.
abbrev released : List Buf
released = elim (brelse true 0 twice) [ none ↦ [] | some bs ↦ bs ]

binit-released : Reach binit released
unfolding bget find_cached recycle binit binit_from brelse
binit-released =
    next (next (next here (get 1 50 0 once refl)) (get 1 50 0 twice refl))
      (release true 0 released refl)

one_copy : copies 1 50 released ≡ 1
unfolding bget find_cached recycle binit binit_from brelse
one_copy = refl

one_buffer_example : copies 1 50 released ≤ 1
one_buffer_example = one_buffer released 1 50 binit-released (λ e. omega (arith, e))
