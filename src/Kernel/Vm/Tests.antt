-- ===== src/Kernel/Vm/Tests.antt =====
-- Runs of kernel/vm.c: tables of one process, with one page of its memory mapped.
use system_call_enhancement.Base.{
  ℕ, zero, suc, ◌+◌, ◌*◌, ◌/◌, ◌%◌, ◌==◌, ◌<◌, ◌≤◌, if◌then◌else◌, true, false, [], ◌∷◌, ◌≡◌, ◌⊎◌,
  refl, ap, ◌∙◌, arith, Bool-cases, inl, inr,
}
use system_call_enhancement.Kernel.Spinlock.{ok}
use system_call_enhancement.Kernel.Vm.{Memory, pte2pa, is_valid, mappages}
use system_call_enhancement.Kernel.Vm.User.{uvmdealloc}
use system_call_enhancement.Kernel.Vm.Copy.{copyin}
use system_call_enhancement.Kernel.Vm.Roles.{Role, free, node, data_page, Shaped, view, entry_of}
use system_call_enhancement.Kernel.Vm.Mapping.{MapResult}
use system_call_enhancement.Kernel.Vm.Mappages.{mappages-MapResult}
use system_call_enhancement.Kernel.Vm.Lookup.{page_of, byte_at}
use system_call_enhancement.Kernel.Vm.Copyin.{CopyResult, copyin-CopyResult}
use system_call_enhancement.Kernel.Vm.Unmap.{Backed, Unmapped}
use system_call_enhancement.Kernel.Vm.Unmaps.{uvmdealloc-Unmapped}

-- The root, the tables below it, and the page that they lead to
abbrev root : ℕ
root = 0x80020000

abbrev middle : ℕ
middle = 0x80021000

abbrev last : ℕ
last = 0x80022000

abbrev user : ℕ
user = 0x80023000

abbrev first_entry : ℕ → ℕ
first_entry t =
    if t == root
    then middle / 4096 * 1024 + 1
    else if t == middle
    then last / 4096 * 1024 + 1
    else if t == last
    then user / 4096 * 1024 + 23
    else 0

abbrev memory : Memory
memory = record {
  entries = λ t i. if i == 0 then first_entry t else 0;
  bytes = λ a. a % 256;
  pages = 0x80030000 ∷ 0x80031000 ∷ [];
}

abbrev roles : ℕ → Role
roles t =
    if t == root
    then node root 2 0
    else if t == middle
    then node root 1 0
    else if t == last
    then node root 0 0
    else if t == user
    then data_page
    else free

step_down :
    (n root' l key : ℕ)
    → node root (suc n) 0 ≡ node root' (suc l) key
    → node root n 0 ≡ node root' l (key * 512 + 0)
step_down n root' l key e =
    let k : 0 ≡ key = cc in
    let z : 0 ≡ key * 512 + 0 = omega (arith, k) in
    let a : n ≡ l = cc in
    let b : root ≡ root' = cc in
    ap (λ r. node r n 0) b ∙ ap (λ x. node root' x 0) a ∙ ap (node root' l) z

tables :
    (t root' l key i : ℕ)
    → roles t ≡ node root' (suc l) key
    → i < 512
    → is_valid (memory.entries t i) ≡ true
    → roles (pte2pa (memory.entries t i)) ≡ node root' l (key * 512 + i)
tables t root' l key zero e h v = elim (Bool-cases (t == root)) [
  | inl a ↦ let r = rw a at e in rw a (step_down 1 root' l key r)
  | inr a ↦ elim (Bool-cases (t == middle)) [
    | inl b ↦ let r = rw (a, b) at e in rw (a, b) (step_down 0 root' l key r)
    | inr b ↦ elim (Bool-cases (t == last)) [
      | inl c ↦ let r = rw (a, b, c) at e in absurd cc
      | inr c ↦ absurd (ground (arith, rw (a, b, c) at v))
    ]
  ]
]
tables t root' l key (suc i) e h v = absurd (ground arith)

memory-Shaped : Shaped roles memory
memory-Shaped = record {
  children = tables;
  unused = (refl, (refl, tt));
  aligned = (refl, (refl, tt));
  distinct = ((λ e. absurd (omega (arith, e)), tt), (tt, tt));
}

second_unset : (j : ℕ) → j < 2 → is_valid (entry_of root (4096 + j * 4096) memory) ≡ false
unfolding view
second_unset zero h = refl
second_unset (suc zero) h = refl
second_unset (suc (suc j)) h = absurd (omega arith)

mappages-MapResult_example :
    MapResult roles memory root 4096 2 0x80040000 22 (mappages root 4096 8192 0x80040000 22 memory)
mappages-MapResult_example =
    mappages-MapResult roles memory root 4096 1 0x80040000 22 memory-Shaped refl refl (omega arith)
      second_unset

bytes_apart :
    (j : ℕ)
    → j < 3
    → (byte_at root (10 + j) memory < 100) ⊎ (100 + 3 ≤ byte_at root (10 + j) memory)
unfolding byte_at page_of view
bytes_apart zero h = inr (omega arith)
bytes_apart (suc zero) h = inr (omega arith)
bytes_apart (suc (suc zero)) h = inr (omega arith)
bytes_apart (suc (suc (suc j))) h = absurd (omega arith)

copyin-CopyResult_example : CopyResult root 100 10 3 memory (copyin root 100 10 3 memory)
copyin-CopyResult_example = copyin-CopyResult root 100 10 3 memory bytes_apart

page-Backed : (j : ℕ) → j < 1 → Backed 0x80010000 roles (entry_of root (0 + j * 4096) memory)
unfolding view
page-Backed zero h = record {
  valid = refl;
  is_leaf = refl;
  holds = refl;
  low = omega arith;
  high = omega arith;
}
page-Backed (suc j) h = absurd (omega arith)

uvmdealloc-Unmapped_example :
    (role' : ℕ → Role) × (m' : Memory) × (uvmdealloc 0x80010000 root 3000 0 memory ≡ ok (0, m'))
    × Unmapped roles memory root 0 1 role' m'
uvmdealloc-Unmapped_example =
    uvmdealloc-Unmapped 0x80010000 root 3000 0 1 roles memory memory-Shaped refl (omega arith) refl
      (omega arith) page-Backed (λ i j p q. absurd (omega arith))
