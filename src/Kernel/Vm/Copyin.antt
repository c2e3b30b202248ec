-- ===== src/Kernel/Vm/Copyin.antt =====
-- What `copyin` of kernel/vm.c copies.
use system_call_enhancement.Base.{
  ℕ, zero, suc, ◌+◌, ◌-◌, ◌%◌, ◌==◌, ltb, if◌then◌else◌, Bool, true, false, ◌<◌, ◌≤◌, ltb→lt, ◌≡◌,
  ◌⊎◌, refl, sym, ap, ◌∙◌, arith, Bool-cases, inl, inr, subst,
}
use system_call_enhancement.Kernel.Spinlock.{Outcome, ok}
use system_call_enhancement.Kernel.Proc.{page_size}
use system_call_enhancement.Kernel.Text.{Bytes, memmove}
use system_call_enhancement.Kernel.Text.Move.{memmove_lem}
use system_call_enhancement.Kernel.Vm.{Memory, walkaddr}
use system_call_enhancement.Kernel.Vm.Roles.{view}
use system_call_enhancement.Kernel.Vm.Copy.{round_down, chunk, copyin_from, copyin}
use system_call_enhancement.Kernel.Vm.Lookup.{walkaddr_lem, page_of, page_of_lem, byte_at}

pub data CopyResult (root dst srcva len : ℕ) (m : Memory) (result : Outcome (Bool × Memory))
    : Type 0 where
  copied :
      (b : Bytes)
      → result ≡ ok (true, record m { bytes = b })
      → ((j : ℕ) → j < len → b (dst + j) ≡ m.bytes (byte_at root (srcva + j) m))
      → ((a : ℕ) → (a < dst) ⊎ (dst + len ≤ a) → b a ≡ m.bytes a)
      → CopyResult root dst srcva len m result
  refused :
      (b : Bytes) (j : ℕ)
      → result ≡ ok (false, record m { bytes = b })
      → j < len
      → page_of root (srcva + j) m ≡ 0
      → ((a : ℕ) → (a < dst) ⊎ (dst + len ≤ a) → b a ≡ m.bytes a)
      → CopyResult root dst srcva len m result

-- One turn copies one byte at least, within one page; behind it the rest starts a page.
chunk_pos : (va len : ℕ) → (len == 0) ≡ false → 0 < chunk va len
unfolding chunk
chunk_pos va len h = ground arith

chunk_le : (va len : ℕ) → chunk va len ≤ len
unfolding chunk
chunk_le va len = ground arith

chunk_page : (va len j : ℕ) → j < chunk va len → round_down (va + j) ≡ round_down va
unfolding chunk
chunk_page va len j h = ground arith

chunk_offset : (va len j : ℕ) → j < chunk va len → (va + j) % 4096 ≡ va - round_down va + j
unfolding chunk
chunk_offset va len j h = ground arith

chunk_next :
    (va len j : ℕ)
    → j < len - chunk va len
    → round_down va + page_size + j ≡ va + (chunk va len + j)
unfolding chunk
chunk_next va len j h = ground arith

page_of-bytes :
    (root va : ℕ) (m : Memory) (b : Bytes)
    → page_of root va (record m { bytes = b }) ≡ page_of root va m
unfolding page_of view
page_of-bytes root va m b = refl

byte_at-bytes :
    (root va : ℕ) (m : Memory) (b : Bytes)
    → byte_at root va (record m { bytes = b }) ≡ byte_at root va m
unfolding byte_at
byte_at-bytes root va m b = ap (λ p. p + va % 4096) (page_of-bytes root va m b)

walkaddr-page_of :
    (root va : ℕ) (m : Memory) → walkaddr root (round_down va) m ≡ ok (page_of root va m)
walkaddr-page_of root va m =
    walkaddr_lem root (round_down va) m ∙ ap ok (sym (page_of_lem root va m))

byte_at-chunk :
    (root va len j : ℕ) (m : Memory)
    → j < chunk va len
    → byte_at root (va + j) m ≡ page_of root va m + (va - round_down va) + j
unfolding byte_at page_of
byte_at-chunk root va len j m h = rw (chunk_page va len j h, chunk_offset va len j h) (omega arith)

-- One turn of the loop
turn :
    (fuel root dst srcva len : ℕ) (m : Memory)
    → (len == 0) ≡ false
    → copyin_from (suc fuel) root dst srcva len m ≡ (
        if page_of root srcva m == 0
        then ok (false, m)
        else copyin_from fuel root
            (dst + chunk srcva len)
            (round_down srcva + page_size)
            (len - chunk srcva len)
            (record m {
              bytes =
                  memmove dst
                    (page_of root srcva m + (srcva - round_down srcva))
                    (chunk srcva len)
                    m.bytes;
            }))
unfolding copyin_from
turn fuel root dst srcva len m e = rw (copyin_from, e, walkaddr-page_of root srcva m) refl

module _ (root dst srcva len : ℕ) (m : Memory) (some_left : (len == 0) ≡ false)
    (apart : (j : ℕ)
      → j < len
      → (byte_at root (srcva + j) m < dst) ⊎ (dst + len ≤ byte_at root (srcva + j) m)) where
  abbrev n : ℕ
  n = chunk srcva len

  abbrev moved : Bytes
  moved = memmove dst (page_of root srcva m + (srcva - round_down srcva)) n m.bytes

  abbrev next : Memory
  next = record m { bytes = moved }

  next_byte :
      (j : ℕ)
      → j < len - n
      → byte_at root (round_down srcva + page_size + j) next ≡ byte_at root (srcva + (n + j)) m
  next_byte j h =
      byte_at-bytes root (round_down srcva + page_size + j) m moved
      ∙ ap (λ x. byte_at root x m) (chunk_next srcva len j h)

  still_apart :
      (j : ℕ)
      → j < len - n
      → (byte_at root (round_down srcva + page_size + j) next < dst + n)
        ⊎ (dst + n + (len - n) ≤ byte_at root (round_down srcva + page_size + j) next)
  still_apart j h = elim (apart (n + j) (omega arith)) [
    | inl q ↦ inl (omega (arith, q, next_byte j h))
    | inr q ↦ inr (omega (arith, q, next_byte j h, chunk_le srcva len))
  ]

  outside_moved : (a : ℕ) → (a < dst) ⊎ (dst + n ≤ a) → moved a ≡ m.bytes a
  outside_moved a h =
      let facts = memmove_lem dst (page_of root srcva m + (srcva - round_down srcva)) n m.bytes in
      elim h [ inl q ↦ facts.1 a q | inr q ↦ facts.2 a q ]

  outside_chunk : (a : ℕ) → (a < dst) ⊎ (dst + len ≤ a) → (a < dst) ⊎ (dst + n ≤ a)
  outside_chunk a h = elim h [ inl q ↦ inl q | inr q ↦ inr (omega (arith, q, chunk_le srcva len)) ]

  module _ (b : Bytes)
      (new : (j : ℕ)
        → j < len - n
        → b (dst + n + j) ≡ moved (byte_at root (round_down srcva + page_size + j) next))
      (old : (a : ℕ) → (a < dst + n) ⊎ (dst + n + (len - n) ≤ a) → b a ≡ moved a) where
    first_bytes : (j : ℕ) → j < n → b (dst + j) ≡ m.bytes (byte_at root (srcva + j) m)
    first_bytes j h =
        let facts = memmove_lem dst (page_of root srcva m + (srcva - round_down srcva)) n m.bytes in
        old (dst + j) (inl (omega (arith, h)))
        ∙ facts.0 j h
        ∙ ap m.bytes (sym (byte_at-chunk root srcva len j m h))

    later_bytes :
        (i : ℕ) → i < len - n → b (dst + (n + i)) ≡ m.bytes (byte_at root (srcva + (n + i)) m)
    later_bytes i h =
        let place : dst + (n + i) ≡ dst + n + i = omega arith in
        ap b place
        ∙ new i h
        ∙ ap moved (next_byte i h)
        ∙ outside_moved (byte_at root (srcva + (n + i)) m) (
            outside_chunk (byte_at root (srcva + (n + i)) m)
              (apart (n + i) (omega (arith, h, chunk_le srcva len))))

    -- The bytes of this turn, and those of the turns behind it
    all_bytes : (j : ℕ) → j < len → b (dst + j) ≡ m.bytes (byte_at root (srcva + j) m)
    all_bytes j h = elim (Bool-cases (ltb j n)) [
      | inl q ↦ first_bytes j (ltb→lt j n q)
      | inr q ↦
          let back : n + (j - n) ≡ j = ground (arith, q) in
          subst (λ k. b (dst + k) ≡ m.bytes (byte_at root (srcva + k) m)) back
            (later_bytes (j - n) (omega (arith, h, back)))
    ]

  outside :
      (b : Bytes)
      → ((a : ℕ) → (a < dst + n) ⊎ (dst + n + (len - n) ≤ a) → b a ≡ moved a)
      → (a : ℕ) → (a < dst) ⊎ (dst + len ≤ a)
      → b a ≡ m.bytes a
  outside b old a h = elim h [
    | inl q ↦ old a (inl (omega arith)) ∙ outside_moved a (inl q)
    | inr q ↦
        old a (inr (omega (arith, q, chunk_le srcva len)))
        ∙ outside_moved a (outside_chunk a (inr q))
  ]

pub copyin_from-CopyResult :
    (fuel root dst srcva len : ℕ) (m : Memory)
    → len ≤ fuel
    → ((j : ℕ)
        → j < len
        → (byte_at root (srcva + j) m < dst) ⊎ (dst + len ≤ byte_at root (srcva + j) m))
    → CopyResult root dst srcva len m (copyin_from fuel root dst srcva len m)
unfolding copyin_from
copyin_from-CopyResult zero root dst srcva len m h apart =
    let e : (len == 0) ≡ true = ground (arith, h) in
    copied m.bytes (rw e refl) (λ j q. absurd (ground (arith, h, q))) (λ a q. refl)
copyin_from-CopyResult (suc fuel) root dst srcva len m h apart = elim (Bool-cases (len == 0)) [
  | inl e ↦ copied m.bytes (rw e refl) (λ j q. absurd (ground (arith, e, q))) (λ a q. refl)
  | inr e ↦
      let n = chunk srcva len in
      let go = turn fuel root dst srcva len m e in
      elim (Bool-cases (page_of root srcva m == 0)) [
        | inl z ↦
            let first : srcva + 0 ≡ srcva = omega arith in
            refused m.bytes 0 (go ∙ rw z refl) (ground (arith, e))
              (ap (λ x. page_of root x m) first ∙ ground (arith, z)) (λ a q. refl)
        | inr z ↦
            elim (copyin_from-CopyResult fuel root (dst + n) (round_down srcva + page_size)
              (len - n) (next root dst srcva len m e apart)
              (omega (arith, h, chunk_pos srcva len e))
              (still_apart root dst srcva len m e apart)) [
                | copied c w new old ↦
                    copied c (go ∙ rw z w) (all_bytes root dst srcva len m e apart c new old)
                      (outside root dst srcva len m e apart c old)
                | refused c j w lt gone old ↦
                    refused c (n + j) (go ∙ rw z w) (omega (arith, lt))
                      (ap (λ x. page_of root x m) (sym (chunk_next srcva len j lt))
                        ∙ sym (
                            page_of-bytes root (round_down srcva + page_size + j) m
                              (moved root dst srcva len m e apart))
                        ∙ gone)
                      (outside root dst srcva len m e apart c old)
              ]
      ]
]

-- `copyin` of len bytes from a virtual address into a block of the kernel that none of the bytes
-- read lies in. It never panics and ends within len turns. If it returns 0, the block holds the
-- bytes that the process has at these addresses, page by page; if it returns -1, the process has no
-- page for one of the addresses, or none that it may use. All bytes outside the block stay as they
-- were. (That the block is no page table is a premise of the model, whose entries are not bytes.)
pub copyin-CopyResult :
    (root dst srcva len : ℕ) (m : Memory)
    → ((j : ℕ)
        → j < len
        → (byte_at root (srcva + j) m < dst) ⊎ (dst + len ≤ byte_at root (srcva + j) m))
    → CopyResult root dst srcva len m (copyin root dst srcva len m)
unfolding copyin
copyin-CopyResult root dst srcva len m apart =
    copyin_from-CopyResult len root dst srcva len m (omega arith) apart
