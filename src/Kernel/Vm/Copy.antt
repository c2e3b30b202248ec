-- ===== src/Kernel/Vm/Copy.antt =====
-- `copyout`, `copyin` and `copyinstr` of kernel/vm.c: the kernel's way to the memory of a process,
-- page by page. A loop has as much fuel as bytes to copy, and copies one byte at least per turn.
use system_call_enhancement.Base.{
  ℕ, zero, suc, ◌+◌, ◌-◌, ◌*◌, ◌/◌, ◌==◌, ltb, leb, if◌then◌else◌, Bool, true, false, not, ◌||◌,
  none, some,
}
use system_call_enhancement.Kernel.Spinlock.{Outcome, ok, panic, ◌>>=◌}
use system_call_enhancement.Kernel.Proc.{page_size}
use system_call_enhancement.Kernel.Text.{Bytes, poke, memmove}
use system_call_enhancement.Kernel.Vm.{
  Memory, max_va, pte2pa, is_valid, is_user, is_writable, walk, walkaddr,
}

-- `PGROUNDDOWN`
abbrev pub round_down : ℕ → ℕ
round_down a = a / page_size * page_size

-- The bytes of one turn
unfoldable pub chunk : (va len : ℕ) → ℕ
chunk va len = let n = page_size - (va - round_down va) in if ltb len n then len else n

-- The loop of `copyout`: true is 0, and false is -1.
unfoldable pub copyout_from : (fuel pagetable dstva src len : ℕ) → Memory → Outcome (Bool × Memory)
copyout_from zero pagetable dstva src len m = if len == 0 then ok (true, m) else panic
copyout_from (suc fuel) pagetable dstva src len m =
    let va0 = round_down dstva in
    if len == 0 then ok (true, m) else if leb max_va va0 then ok (false, m) else do
      (pte, m₁) ← walk false pagetable va0 m
      elim pte [
        | none ↦ ok (false, m₁)
        | some (t, i) ↦
            let e = m₁.entries t i in
            let n = chunk dstva len in
            let to = pte2pa e + (dstva - va0) in
            let m₂ = record m₁ { bytes = memmove to src n m₁.bytes } in
            if not (is_valid e) || (not (is_user e) || not (is_writable e))
            then ok (false, m₁)
            else copyout_from fuel pagetable (va0 + page_size) (src + n) (len - n) m₂
      ]

unfoldable pub copyout : (pagetable dstva src len : ℕ) → Memory → Outcome (Bool × Memory)
copyout pagetable dstva src len m = copyout_from len pagetable dstva src len m

-- The loop of `copyin`
unfoldable pub copyin_from : (fuel pagetable dst srcva len : ℕ) → Memory → Outcome (Bool × Memory)
copyin_from zero pagetable dst srcva len m = if len == 0 then ok (true, m) else panic
copyin_from (suc fuel) pagetable dst srcva len m =
    let va0 = round_down srcva in
    let n = chunk srcva len in
    if len == 0 then ok (true, m) else do
      pa0 ← walkaddr pagetable va0 m
      let m₁ = record m { bytes = memmove dst (pa0 + (srcva - va0)) n m.bytes }
      if pa0 == 0
          then ok (false, m)
          else copyin_from fuel pagetable (dst + n) (va0 + page_size) (len - n) m₁

unfoldable pub copyin : (pagetable dst srcva len : ℕ) → Memory → Outcome (Bool × Memory)
copyin pagetable dst srcva len m = copyin_from len pagetable dst srcva len m

-- The inner loop of `copyinstr` over n bytes: whether it met the NUL, and the bytes that it stored
-- before.
unfoldable pub copy_chars : (n dst p : ℕ) → Bytes → Bool × Bytes
copy_chars zero dst p b = (false, b)
copy_chars (suc n) dst p b =
    let rest = copy_chars n (dst + 1) (p + 1) (poke b dst (b p)) in
    if b p == 0 then (true, poke b dst 0) else rest

-- The outer loop, behind which -1 means that no NUL was met
unfoldable pub copyinstr_from :
    (fuel pagetable dst srcva max : ℕ) → Memory → Outcome (Bool × Memory)
copyinstr_from zero pagetable dst srcva max m = if max == 0 then ok (false, m) else panic
copyinstr_from (suc fuel) pagetable dst srcva max m =
    let va0 = round_down srcva in
    let n = chunk srcva max in
    if max == 0 then ok (false, m) else do
      pa0 ← walkaddr pagetable va0 m
      let r = copy_chars n dst (pa0 + (srcva - va0)) m.bytes
      let m₁ = record m { bytes = r.1 }
      if pa0 == 0
          then ok (false, m)
          else if r.0
          then ok (true, m₁)
          else copyinstr_from fuel pagetable (dst + n) (va0 + page_size) (max - n) m₁

unfoldable pub copyinstr : (pagetable dst srcva max : ℕ) → Memory → Outcome (Bool × Memory)
copyinstr pagetable dst srcva max m = copyinstr_from max pagetable dst srcva max m
