-- ===== src/Kernel/Vm/Mappages.antt =====
-- How `mappages` of kernel/vm.c ends.
use system_call_enhancement.Base.{
  ℕ, zero, suc, ◌+◌, ◌-◌, ◌*◌, ◌/◌, ◌%◌, ◌==◌, leb, if◌then◌else◌, Bool, true, false, ◌<◌, ◌≤◌, [],
  none, some, ◌≡◌, refl, sym, ap, ◌∙◌, arith, Bool-cases, inl, inr, subst,
}
use system_call_enhancement.Kernel.Spinlock.{ok}
use system_call_enhancement.Kernel.Proc.{page_size}
use system_call_enhancement.Kernel.Vm.{
  Memory, max_va, is_valid, px, store, walk_from, walk, map_from, mappages,
}
use system_call_enhancement.Kernel.Vm.Roles.{Role, node, Shaped, entry_of}
use system_call_enhancement.Kernel.Vm.Walk.{walk_from-Walked, missing, found}
use system_call_enhancement.Kernel.Vm.Mapping.{
  leaf, in_range, Mapped, Mapped-none, Mapped-one, root_key, MapResult, mapped, exhausted,
}

pub walk-ok :
    (alloc : Bool) (root a : ℕ) (m : Memory)
    → a < max_va
    → walk alloc root a m ≡ ok (walk_from alloc 2 root a m)
unfolding walk
walk-ok alloc root a m h = let e : leb max_va a ≡ false = ground arith in rw e refl

map_from-missing :
    (f root a last pa perm : ℕ) (m m₁ : Memory)
    → a < max_va
    → walk_from true 2 root a m ≡ (none, m₁)
    → map_from (suc f) root a last pa perm m ≡ ok (false, m₁)
unfolding map_from
map_from-missing f root a last pa perm m m₁ h w = rw (map_from, walk-ok true root a m h, w) refl

map_from-found :
    (f root a last pa perm t i : ℕ) (m m₁ : Memory)
    → a < max_va
    → walk_from true 2 root a m ≡ (some (t, i), m₁)
    → is_valid (m₁.entries t i) ≡ false
    → map_from (suc f) root a last pa perm m ≡ (
        if a == last
        then ok (true, store t i (leaf pa perm) m₁)
        else map_from f root
            (a + page_size)
            last
            (pa + page_size)
            perm
            (store t i (leaf pa perm) m₁))
unfolding map_from
map_from-found f root a last pa perm t i m m₁ h w v =
    rw (map_from, walk-ok true root a m h, w, v) refl

-- One page, and k more behind it
Mapped-cons :
    (role : ℕ → Role) (m : Memory) (root a k pa perm : ℕ) (role₁ : ℕ → Role) (m₁ : Memory)
    (role₂ : ℕ → Role) (m₂ : Memory)
    → a % 4096 ≡ 0
    → Mapped role m root a 1 pa perm role₁ m₁
    → Mapped role₁ m₁ root (a + 4096) k (pa + 4096) perm role₂ m₂
    → Mapped role m root a (suc k) pa perm role₂ m₂
Mapped-cons role m root a k pa perm role₁ m₁ role₂ m₂ al one rest = record {
  shaped = rest.shaped;
  keeps = λ u root' l key e. rest.keeps u root' l key (one.keeps u root' l key e);
  entries = λ root' x e h.
      let first = one.entries root' x e h in
      let second = rest.entries root' x (one.keeps root' root' 2 0 e) h in
      elim (Bool-cases (in_range root (a + 4096) k root' x)) [
        | inl r ↦
            let both : in_range root a (suc k) root' x ≡ true = ground (arith, r) in
            let at : pa + 4096 + (x / 4096 - (a + 4096) / 4096) * 4096
                ≡ pa + (x / 4096 - a / 4096) * 4096 =
              ground (arith, r) in
            second ∙ (rw (r, both, at) refl)
        | inr r ↦ elim (Bool-cases (in_range root a 1 root' x)) [
          | inl q ↦
              let both : in_range root a (suc k) root' x ≡ true = ground (arith, q) in
              second ∙ (rw (r, both) (first ∙ rw q refl))
          | inr q ↦
              let both : in_range root a (suc k) root' x ≡ false = ground (arith, q, r) in
              second ∙ (rw (r, both) (first ∙ rw q refl))
        ]
      ];
}

-- The first turn of the loop
data FirstTurn (role : ℕ → Role) (m : Memory) (root a pa perm : ℕ) : Type 0 where
  no_table :
      (role' : ℕ → Role) (m' : Memory)
      → ((f last : ℕ) → map_from (suc f) root a last pa perm m ≡ ok (false, m'))
      → Mapped role m root a 0 pa perm role' m'
      → m'.pages ≡ []
      → FirstTurn role m root a pa perm
  one_page :
      (role' : ℕ → Role) (m' : Memory)
      → ((f last : ℕ)
          → map_from (suc f) root a last pa perm m ≡ (
              if a == last
              then ok (true, m')
              else map_from f root (a + page_size) last (pa + page_size) perm m'))
      → Mapped role m root a 1 pa perm role' m'
      → FirstTurn role m root a pa perm

first_turn :
    (role : ℕ → Role) (m : Memory) (root a pa perm : ℕ)
    → Shaped role m
    → role root ≡ node root 2 0
    → a % 4096 ≡ 0
    → a < max_va
    → is_valid (entry_of root a m) ≡ false
    → FirstTurn role m root a pa perm
first_turn role m root a pa perm shaped top al h unset =
    elim (walk_from-Walked 2 root root a role m shaped (omega arith)
      (top ∙ ap (node root 2) (sym (root_key a h)))) [
        | missing role' m' w g p ↦
            no_table role' m' (λ f last. map_from-missing f root a last pa perm m m' h w)
              (Mapped-none role m root a pa perm role' m' g) p
        | found role' m' t w w' g n x ↦
            one_page role' (store t (px 0 a) (leaf pa perm) m')
              (λ f last.
                map_from-found f root a last pa perm t (px 0 a) m m' h w (ap is_valid x ∙ unset))
              (Mapped-one role m root a pa perm role' m' t top h al g n w')
      ]

-- The pages behind the first one are still not mapped.
unset_behind :
    (role : ℕ → Role) (m : Memory) (root a k pa perm : ℕ) (role' : ℕ → Role) (m' : Memory)
    → role root ≡ node root 2 0
    → a + suc k * 4096 ≤ max_va
    → ((j : ℕ) → j < suc k → is_valid (entry_of root (a + j * 4096) m) ≡ false)
    → Mapped role m root a 1 pa perm role' m'
    → (j : ℕ) → j < k
    → is_valid (entry_of root (a + 4096 + j * 4096) m') ≡ false
unset_behind role m root a k pa perm role' m' top fits unset one j h =
    let x : a + 4096 + j * 4096 ≡ a + suc j * 4096 = omega arith in
    let out : in_range root a 1 root (a + suc j * 4096) ≡ false = ground arith in
    rw x (
      ap is_valid (one.entries root (a + suc j * 4096) top (omega arith) ∙ rw out refl)
      ∙ unset (suc j) (omega arith))

pub map_from-MapResult :
    (k : ℕ) (role : ℕ → Role) (m : Memory) (root a last pa perm : ℕ)
    → Shaped role m
    → role root ≡ node root 2 0
    → a % 4096 ≡ 0
    → a + suc k * 4096 ≤ max_va
    → last ≡ a + k * 4096
    → ((j : ℕ) → j < suc k → is_valid (entry_of root (a + j * 4096) m) ≡ false)
    → MapResult role m root a (suc k) pa perm (map_from (suc k) root a last pa perm m)
map_from-MapResult zero role m root a last pa perm shaped top al fits ends unset =
    let start : is_valid (entry_of root a m) ≡ false =
      subst (λ y. is_valid (entry_of root y m) ≡ false) {x = a + 0 * 4096} {y = a} (omega arith)
        (unset 0 (omega arith)) in
    elim (first_turn role m root a pa perm shaped top al (omega arith) start) [
      | no_table role' m' w g p ↦ exhausted role' m' 0 (w 0 last) (omega arith) g p
      | one_page role' m' w one ↦
          let e : (a == last) ≡ true = ground (arith, ends) in
          mapped role' m' (w 0 last ∙ rw e refl) one
    ]
map_from-MapResult (suc k) role m root a last pa perm shaped top al fits ends unset =
    let start : is_valid (entry_of root a m) ≡ false =
      subst (λ y. is_valid (entry_of root y m) ≡ false) {x = a + 0 * 4096} {y = a} (omega arith)
        (unset 0 (omega arith)) in
    elim (first_turn role m root a pa perm shaped top al (omega arith) start) [
      | no_table role' m' w g p ↦ exhausted role' m' 0 (w (suc k) last) (omega arith) g p
      | one_page role' m' w one ↦
          let e : (a == last) ≡ false = ground (arith, ends) in
          let go : map_from (suc (suc k)) root a last pa perm m
              ≡ map_from (suc k) root (a + page_size) last (pa + page_size) perm m' =
            w (suc k) last ∙ rw e refl in
          elim (map_from-MapResult k role' m' root (a + 4096) last (pa + 4096) perm one.shaped
            (one.keeps root root 2 0 top) (omega arith) (omega arith) (omega (arith, ends))
            (unset_behind role m root a (suc k) pa perm role' m' top fits unset one)) [
              | mapped role₂ m₂ w₂ rest ↦
                  mapped role₂ m₂ (go ∙ w₂)
                    (Mapped-cons role m root a (suc k) pa perm role' m' role₂ m₂ al one rest)
              | exhausted role₂ m₂ j w₂ lt rest p ↦
                  exhausted role₂ m₂ (suc j) (go ∙ w₂) (omega arith)
                    (Mapped-cons role m root a j pa perm role' m' role₂ m₂ al one rest) p
            ]
    ]

mappages-map_from :
    (root va n pa perm : ℕ) (m : Memory)
    → va % 4096 ≡ 0
    → mappages root va (suc n * 4096) pa perm m ≡ map_from (suc n) root va (va + n * 4096) pa perm m
unfolding mappages
mappages-map_from root va n pa perm m al =
    let e : (va % 4096 == 0) ≡ true = ground (arith, al) in
    let f : (suc n * 4096 % 4096 == 0) ≡ true = ground arith in
    let g : (suc n * 4096 == 0) ≡ false = ground arith in
    let size : suc n * 4096 / 4096 ≡ suc n = omega arith in
    let last : va + suc n * 4096 - 4096 ≡ va + n * 4096 = omega arith in
    rw (e, f, g, size, last) refl

-- `mappages` of one or more whole pages, from an aligned virtual address on and within MAXVA, none
-- of which has a valid entry, on tables in which no page has two uses: it does not panic, and it
-- leaves the tables in such a state. If it returns 0, then every address on the pages has the entry
-- of its physical page, with the permissions and PTE_V; if it returns -1, that holds of the pages
-- before some page of the range, and the allocator has no page left. All other addresses, also
-- those of other page tables, keep their entries, though tables are added.
pub mappages-MapResult :
    (role : ℕ → Role) (m : Memory) (root va n pa perm : ℕ)
    → Shaped role m
    → role root ≡ node root 2 0
    → va % 4096 ≡ 0
    → va + suc n * 4096 ≤ max_va
    → ((j : ℕ) → j < suc n → is_valid (entry_of root (va + j * 4096) m) ≡ false)
    → MapResult role m root va (suc n) pa perm (mappages root va (suc n * 4096) pa perm m)
mappages-MapResult role m root va n pa perm shaped top al fits unset =
    subst (MapResult role m root va (suc n) pa perm)
      (sym (mappages-map_from root va n pa perm m al))
      (map_from-MapResult n role m root va (va + n * 4096) pa perm shaped top al fits refl unset)
