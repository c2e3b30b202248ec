-- ===== src/Kernel/Vm/Walk.antt =====
-- What `walk` of kernel/vm.c does to the tables, and where it ends.
use system_call_enhancement.Base.{
  ℕ, zero, suc, ◌+◌, ◌*◌, Bool, true, false, ◌<◌, List, [], ◌∷◌, none, some, ◌≡◌, ◌⊎◌, refl, sym,
  ap, ◌∙◌, arith, Bool-cases, inl, inr,
}
use system_call_enhancement.Kernel.Vm.{Memory, pte2pa, is_valid, px, walk_from}
use system_call_enhancement.Kernel.Vm.Roles.{
  Role, node, Shaped, view, prefix_of, px-prefix_of, assign, Grown, Grown-refl, Grown-trans,
}
use system_call_enhancement.Kernel.Vm.Link.{
  linked, linked-node, linked-view, linked-Grown, first-valid, first-page, kalloc-none, kalloc-some,
}

List-cases : (ps : List ℕ) → (ps ≡ []) ⊎ ((p : ℕ) × (rest : List ℕ) × (ps ≡ p ∷ rest))
List-cases [] = inl refl
List-cases (p ∷ rest) = inr (p, rest, refl)

-- How `walk` with alloc ends below a table of a level.
pub data Walked (role : ℕ → Role) (m : Memory) (level table root va : ℕ) : Type 0 where
  missing :
      (role' : ℕ → Role) (m' : Memory)
      → walk_from true level table va m ≡ (none, m')
      → Grown role m role' m'
      → m'.pages ≡ []
      → Walked role m level table root va
  found :
      (role' : ℕ → Role) (m' : Memory) (t : ℕ)
      → walk_from true level table va m ≡ (some (t, px 0 va), m')
      → walk_from false level table va m' ≡ (some (t, px 0 va), m')
      → Grown role m role' m'
      → role' t ≡ node root 0 (prefix_of 1 va)
      → m'.entries t (px 0 va) ≡ view level table va m
      → Walked role m level table root va

-- The key of the table that an entry leads to
pub child_key :
    (l va : ℕ) → suc l < 3 → prefix_of (suc (suc l)) va * 512 + px (suc l) va ≡ prefix_of (suc l) va
child_key l va h = omega (arith, px-prefix_of (suc l) va h)

pub walk_from-valid :
    (alloc : Bool) (level table va : ℕ) (m : Memory)
    → is_valid (m.entries table (px (suc level) va)) ≡ true
    → walk_from alloc (suc level) table va m
      ≡ walk_from alloc level (pte2pa (m.entries table (px (suc level) va))) va m
unfolding walk_from
walk_from-valid alloc level table va m v = rw (walk_from, v) refl

walk_from-empty :
    (level table va : ℕ) (m : Memory)
    → is_valid (m.entries table (px (suc level) va)) ≡ false
    → m.pages ≡ []
    → walk_from true (suc level) table va m ≡ (none, m)
unfolding walk_from
walk_from-empty level table va m v p = rw (walk_from, v, kalloc-none m p) refl

walk_from-link :
    (level table va p : ℕ) (ps : List ℕ) (m : Memory)
    → is_valid (m.entries table (px (suc level) va)) ≡ false
    → m.pages ≡ p ∷ ps
    → walk_from true (suc level) table va m
      ≡ walk_from true level p va (linked table (px (suc level) va) p ps m)
unfolding walk_from
walk_from-link level table va p ps m v e = rw (walk_from, v, kalloc-some m p ps e) refl

view-valid :
    (level table va : ℕ) (m : Memory)
    → is_valid (m.entries table (px (suc level) va)) ≡ true
    → view (suc level) table va m ≡ view level (pte2pa (m.entries table (px (suc level) va))) va m
unfolding view
view-valid level table va m v = rw v refl

view-invalid :
    (level table va : ℕ) (m : Memory)
    → is_valid (m.entries table (px (suc level) va)) ≡ false
    → view (suc level) table va m ≡ 0
unfolding view
view-invalid level table va m v = rw v refl

-- The same path, from an entry that leads to the table at its end
again :
    (level table va t c : ℕ) (m : Memory)
    → is_valid (m.entries table (px (suc level) va)) ≡ true
    → pte2pa (m.entries table (px (suc level) va)) ≡ c
    → walk_from false level c va m ≡ (some (t, px 0 va), m)
    → walk_from false (suc level) table va m ≡ (some (t, px 0 va), m)
again level table va t c m v e w =
    walk_from-valid false level table va m v ∙ ap (λ x. walk_from false level x va m) e ∙ w

pub walk_from-Walked :
    (level table root va : ℕ) (role : ℕ → Role) (m : Memory)
    → Shaped role m
    → level < 3
    → role table ≡ node root level (prefix_of (suc level) va)
    → Walked role m level table root va
unfolding walk_from view
walk_from-Walked zero table root va role m valid h e =
    found role m table refl refl (Grown-refl role m valid) e refl
walk_from-Walked (suc level) table root va role m valid h e =
    let i = px (suc level) va in
    let key = prefix_of (suc (suc level)) va in
    elim (Bool-cases (is_valid (m.entries table i))) [
      | inl v ↦
          let child = valid.children table root level key i e (omega arith) v in
          let down = walk_from-valid true level table va m v in
          let same = view-valid level table va m v in
          elim (walk_from-Walked level (pte2pa (m.entries table i)) root va role m valid
            (omega arith) (child ∙ ap (node root level) (child_key level va h))) [
              | missing role' m' w g p ↦ missing role' m' (down ∙ w) g p
              | found role' m' t w w' g n x ↦
                  let kept = g.extends table root level key i e v in
                  found role' m' t (down ∙ w)
                    (again level table va t (pte2pa (m.entries table i)) m' (ap is_valid kept ∙ v)
                      (ap pte2pa kept) w')
                    g n (x ∙ sym same)
            ]
      | inr v ↦ elim (List-cases m.pages) [
        | inl p ↦ missing role m (walk_from-empty level table va m v p) (Grown-refl role m valid) p
        | inr (p, ps, taken) ↦
            let index : i < 512 = omega arith in
            let link = walk_from-link level table va p ps m v taken in
            let role₁ = assign p (node root level (key * 512 + i)) role in
            let m₁ = linked table i p ps m in
            let grown : Grown role m role₁ m₁ =
              linked-Grown role m valid table i p root level key ps e index v taken in
            let here = first-valid role m valid table i p root level key ps e index v taken in
            let empty =
              linked-view role m valid table i p root level key ps e index v taken va
              ∙ sym (view-invalid level table va m v) in
            elim (walk_from-Walked level p root va role₁ m₁ grown.shaped (omega arith) (
              linked-node role m valid table i p root level key ps e index v taken
              ∙ ap (node root level) (child_key level va h))) [
                | missing role' m' w g q ↦
                    missing role' m' (link ∙ w) (Grown-trans role m role₁ m₁ role' m' grown g) q
                | found role' m' t w w' g n x ↦
                    let kept =
                      g.extends table root level key i (grown.keeps table root (suc level) key e)
                        here in
                    found role' m' t (link ∙ w)
                      (again level table va t p m' (ap is_valid kept ∙ here)
                        (ap pte2pa kept
                          ∙ first-page role m valid table i p root level key ps e index v taken)
                        w')
                      (Grown-trans role m role₁ m₁ role' m' grown g) n (x ∙ empty)
              ]
      ]
    ]
