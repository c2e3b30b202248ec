-- ===== src/Kernel/Vm/Lookup.antt =====
-- What `walk` without alloc and `walkaddr` of kernel/vm.c find, and where a byte of a process lies.
use system_call_enhancement.Base.{
  ℕ, zero, suc, ◌+◌, ◌*◌, ◌/◌, ◌%◌, ◌^◌, ◌&&◌, ltb, sym, leb, if◌then◌else◌, false, none, some, ◌≡◌,
  refl, ap, ◌∙◌, arith, Bool-cases, inl, inr,
}
use system_call_enhancement.Base.Bits.{bit}
use system_call_enhancement.Kernel.Spinlock.{ok}
use system_call_enhancement.Kernel.Vm.{
  Memory, max_va, pte2pa, is_valid, px, walk_from, user_page, walkaddr,
}
use system_call_enhancement.Kernel.Vm.Roles.{view, entry_of}
use system_call_enhancement.Kernel.Vm.Walk.{walk_from-valid}
use system_call_enhancement.Kernel.Vm.Leaf.{walk_from-invalid}
use system_call_enhancement.Kernel.Vm.Mappages.{walk-ok}
use system_call_enhancement.Kernel.Vm.Copy.{round_down}

-- How `walk` without alloc ends
pub data Looked (l u va : ℕ) (m : Memory) : Type 0 where
  absent : walk_from false l u va m ≡ (none, m) → view l u va m ≡ 0 → Looked l u va m
  present :
      (t : ℕ)
      → walk_from false l u va m ≡ (some (t, px 0 va), m)
      → m.entries t (px 0 va) ≡ view l u va m
      → Looked l u va m

pub walk_from-Looked : (l u va : ℕ) (m : Memory) → Looked l u va m
unfolding view walk_from
walk_from-Looked zero u va m = present u refl refl
walk_from-Looked (suc l) u va m = elim (Bool-cases (is_valid (m.entries u (px (suc l) va)))) [
  | inr v ↦ absent (walk_from-invalid l u va m v) (rw v refl)
  | inl v ↦ elim (walk_from-Looked l (pte2pa (m.entries u (px (suc l) va))) va m) [
    | absent w e ↦ absent (walk_from-valid false l u va m v ∙ w) (rw v e)
    | present t w e ↦ present t (walk_from-valid false l u va m v ∙ w) (rw v e)
  ]
]

-- `walkaddr` returns the page of the entry that the tables hold for the address, if it is valid and
-- the user's, and 0 otherwise and for an address that is MAXVA or more: it never panics.
pub walkaddr_lem :
    (root va : ℕ) (m : Memory)
    → walkaddr root va m ≡ ok (if leb max_va va then 0 else user_page (entry_of root va m))
unfolding walkaddr
walkaddr_lem root va m = elim (Bool-cases (leb max_va va)) [
  | inl h ↦ rw h refl
  | inr h ↦ elim (walk_from-Looked 2 root va m) [
    | absent w e ↦
        let r = walk-ok false root va m (ground (arith, h)) ∙ ap ok w in rw (h, r, e) refl
    | present t w e ↦
        let r = walk-ok false root va m (ground (arith, h)) ∙ ap ok w in
        rw (h, r) (ap (λ x. ok (user_page x)) e)
  ]
]

-- The page of a process in which an address lies: 0 if the address is past the last one, and if
-- its entry in the tables lacks PTE_V, the lowest bit, or PTE_U, the bit of value 16; else the page
-- number in the entry, from bit 10 on.
unfoldable pub page_of : (root va : ℕ) → Memory → ℕ
page_of root va m =
    let pte = entry_of root (va / 4096 * 4096) m in
    if ltb (va / 4096 * 4096) (2 ^ 38) && (bit 0 pte && bit 4 pte) then pte / 1024 * 4096 else 0

user_page_lem :
    (va pte : ℕ)
    → (if leb max_va va then 0 else user_page pte)
      ≡ (if ltb va (2 ^ 38) && (bit 0 pte && bit 4 pte) then pte / 1024 * 4096 else 0)
user_page_lem va pte = elim (Bool-cases (bit 0 pte)) [
  | inl e ↦ elim (Bool-cases (bit 4 pte)) [
    | inl f ↦ rw (e, f) (ground arith)
    | inr f ↦ rw (e, f) (ground arith)
  ]
  | inr e ↦ rw e (ground arith)
]

pub page_of_lem :
    (root va : ℕ) (m : Memory)
    → page_of root va m
      ≡ (if leb max_va (round_down va) then 0 else user_page (entry_of root (round_down va) m))
unfolding page_of
page_of_lem root va m = sym (user_page_lem (round_down va) (entry_of root (round_down va) m))

unfoldable pub byte_at : (root va : ℕ) → Memory → ℕ
byte_at root va m = page_of root va m + va % 4096
