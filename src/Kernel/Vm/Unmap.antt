-- ===== src/Kernel/Vm/Unmap.antt =====
-- What `uvmunmap` of kernel/vm.c takes away, with the pages given back.
use system_call_enhancement.Base.{
  ℕ, zero, suc, ◌+◌, ◌*◌, ◌%◌, ◌==◌, if◌then◌else◌, true, false, ◌<◌, ◌≤◌, List, [], ◌∷◌, ◌++◌,
  some, ◌≡◌, ◌≢◌, refl, sym, ap, ◌∙◌, arith, Bool-cases, inl, inr, subst,
}
use system_call_enhancement.Kernel.Spinlock.{ok}
use system_call_enhancement.Kernel.Proc.{page_size}
use system_call_enhancement.Kernel.Kalloc.{phystop}
use system_call_enhancement.Kernel.Vm.{
  Memory, max_va, pte2pa, pte_flags, is_valid, px, fill_page, store, walk_from, walk,
}
use system_call_enhancement.Kernel.Vm.User.{kfree, unmap_from}
use system_call_enhancement.Kernel.Vm.Roles.{
  Role, free, node, data_page, Shaped, entry_of, prefix_of, assign, assign-ne, Grown,
}
use system_call_enhancement.Kernel.Vm.Walk.{child_key, walk_from-valid}
use system_call_enhancement.Kernel.Vm.Leaf.{store-Shaped, walk_from-invalid, end_of}
use system_call_enhancement.Kernel.Vm.Mapping.{in_range, entries_stored, root_key}
use system_call_enhancement.Kernel.Vm.Mappages.{walk-ok}
use system_call_enhancement.Kernel.Vm.Lookup.{absent, present, walk_from-Looked}
use system_call_enhancement.Kernel.Vm.Freed.{kfree-ok, freed-Grown}

-- The table that a walk ends at, in a memory that grew as well
walk_role :
    (l u root va t : ℕ) (role : ℕ → Role) (m : Memory) (role' : ℕ → Role) (m' : Memory)
    → Shaped role m
    → Grown role m role' m'
    → l < 3
    → role u ≡ node root l (prefix_of (suc l) va)
    → walk_from false l u va m ≡ (some (t, px 0 va), m)
    → (role t ≡ node root 0 (prefix_of 1 va))
      × (walk_from false l u va m' ≡ (some (t, px 0 va), m'))
unfolding walk_from
walk_role zero u root va t role m role' m' shaped g h e w =
    let same : u ≡ t = ap end_of w in
    (ap role (sym same) ∙ e, ap (λ x. (some (x, px 0 va), m')) same)
walk_role (suc l) u root va t role m role' m' shaped g h e w =
    let j = px (suc l) va in
    let key = prefix_of (suc (suc l)) va in
    elim (Bool-cases (is_valid (m.entries u j))) [
      | inr v ↦ absurd (ground (arith, sym (walk_from-invalid l u va m v) ∙ w))
      | inl v ↦
          let child = shaped.children u root l key j e (omega arith) v in
          let same = g.extends u root l key j e v in
          let r =
            walk_role l (pte2pa (m.entries u j)) root va t role m role' m' shaped g (omega arith)
              (child ∙ ap (node root l) (child_key l va h))
              (sym (walk_from-valid false l u va m v) ∙ w) in
          (
            r.0,
            walk_from-valid false l u va m' (ap is_valid same ∙ v)
                ∙ ap (λ x. walk_from false l (pte2pa x) va m') same
                ∙ r.1,
          )
    ]

-- What `uvmunmap` asks of the entry of a page that it is to free
pub record Backed (kernel_end : ℕ) (role : ℕ → Role) (pte : ℕ) : Type 0 where
  pub valid : is_valid pte ≡ true
  pub is_leaf : (pte_flags pte == 1) ≡ false
  pub holds : role (pte2pa pte) ≡ data_page
  pub low : kernel_end ≤ pte2pa pte
  pub high : pte2pa pte < phystop

-- The pages behind n entries from `a` on, the last one first
abbrev pub backing : (n root a : ℕ) → Memory → List ℕ
backing zero root a m = []
backing (suc n) root a m = backing n root (a + 4096) m ++ (pte2pa (entry_of root a m) ∷ [])

pub record Unmapped (role : ℕ → Role) (m : Memory) (root a n : ℕ) (role' : ℕ → Role) (m' : Memory)
    : Type 0 where
  pub shaped : Shaped role' m'
  pub keeps : (u root l key : ℕ) → role u ≡ node root l key → role' u ≡ node root l key
  pub entries :
      (root' x : ℕ)
      → role root' ≡ node root' 2 0
      → x < max_va
      → entry_of root' x m' ≡ (if in_range root a n root' x then 0 else entry_of root' x m)
  pub others :
      (p : ℕ) → ((j : ℕ) → j < n → p ≢ pte2pa (entry_of root (a + j * 4096) m)) → role' p ≡ role p
  pub pages : m'.pages ≡ backing n root a m ++ m.pages

-- One turn of the loop
turn :
    (kernel_end n root a t i e : ℕ) (m m₂ : Memory)
    → walk false root a m ≡ ok (some (t, i), m)
    → m.entries t i ≡ e
    → is_valid e ≡ true
    → (pte_flags e == 1) ≡ false
    → kfree kernel_end (pte2pa e) m ≡ ok m₂
    → unmap_from kernel_end (suc n) root a true m
      ≡ unmap_from kernel_end n root (a + page_size) true (store t i 0 m₂)
unfolding unmap_from
turn kernel_end n root a t i e m m₂ w x v f k = rw (w, x, v, f, k) refl

-- One page
pub one_page :
    (kernel_end n root a : ℕ) (role : ℕ → Role) (m : Memory)
    → Shaped role m
    → role root ≡ node root 2 0
    → a < max_va
    → a % 4096 ≡ 0
    → Backed kernel_end role (entry_of root a m)
    → (role' : ℕ → Role) × (m' : Memory) × (unmap_from kernel_end (suc n) root a true m
        ≡ unmap_from kernel_end n root (a + page_size) true m')
      × Unmapped role m root a 1 role' m'
unfolding unmap_from
one_page kernel_end n root a role m shaped top h al b = elim (walk_from-Looked 2 root a m) [
  | absent w z ↦ absurd (ground (arith, sym (ap is_valid z) ∙ b.valid))
  | present t w x ↦
      let pa = pte2pa (entry_of root a m) in
      let pa_al : pa % 4096 ≡ 0 = omega arith in
      let m₂ : Memory = record (fill_page pa 1 m) { pages = pa ∷ m.pages } in
      let role₂ = assign pa free role in
      let g : Grown role m role₂ m₂ = freed-Grown role m shaped pa b.holds pa_al in
      let start = top ∙ ap (node root 2) (sym (root_key a h)) in
      let r = walk_role 2 root root a t role m role₂ m₂ shaped g (omega arith) start w in
      let n₂ = g.keeps t root 0 (prefix_of 1 a) r.0 in
      (
        role₂,
        store t (px 0 a) 0 m₂,
        turn kernel_end n root a t (px 0 a) (entry_of root a m) m m₂
            (walk-ok false root a m h ∙ ap ok w) x b.valid b.is_leaf
            (kfree-ok kernel_end pa m pa_al b.low b.high),
        record {
          shaped = store-Shaped role₂ m₂ g.shaped t root (prefix_of 1 a) n₂ (px 0 a) 0;
          keeps = g.keeps;
          entries = entries_stored role m root a 0 role₂ m₂ t h al g n₂ r.1;
          others = λ p q.
              let first : a + 0 * 4096 ≡ a = omega arith in
              assign-ne pa free role
                (subst (λ y. p ≢ pte2pa (entry_of root y m)) first (q 0 (omega arith)));
          pages = refl;
        },
      )
]
