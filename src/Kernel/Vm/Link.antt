-- ===== src/Kernel/Vm/Link.antt =====
-- The step of `walk` of kernel/vm.c that hangs a new table into an entry that was not valid.
use system_call_enhancement.Base.{
  ℕ, zero, suc, ◌+◌, ◌*◌, ◌%◌, ◌==◌, true, false, ◌&&◌, ◌<◌, List, [], ◌∷◌, All, ◌≡◌, ◌≢◌, none,
  some, refl, sym, ap, ◌∙◌, arith, Bool-cases, inl, inr, subst,
}
use system_call_enhancement.Base.Bits.{bit_or-one}
use Prim.Native.Nat.{bit_or}
use system_call_enhancement.Kernel.Vm.{
  Memory, pa2pte, pte2pa, is_valid, px, fill_page, store, kalloc,
}
use system_call_enhancement.Kernel.Vm.Roles.{
  Role, free, node, IsDistinct, Shaped, view, assign, assign_self, assign-ne, assign-free,
  free-ne-node, Grown,
}

pub kalloc-none : (m : Memory) → m.pages ≡ [] → kalloc m ≡ none
unfolding kalloc
kalloc-none m e = rw (kalloc, e) refl

pub kalloc-some :
    (m : Memory) (p : ℕ) (ps : List ℕ)
    → m.pages ≡ p ∷ ps
    → kalloc m ≡ some (p, fill_page p 5 (record m { pages = ps }))
unfolding kalloc
kalloc-some m p ps e = rw (kalloc, e) refl

-- The entry for a table on the page p
pub link-valid : (p : ℕ) → is_valid (bit_or (pa2pte p) 1) ≡ true
link-valid p = ground (arith, bit_or-one (pa2pte p))

pub pte2pa-link : (p : ℕ) → p % 4096 ≡ 0 → pte2pa (bit_or (pa2pte p) 1) ≡ p
pte2pa-link p h = omega (arith, bit_or-one (pa2pte p))

-- What `walk` makes of a memory with the page p on its list.
abbrev pub linked : (t i p : ℕ) → (ps : List ℕ) → Memory → Memory
linked t i p ps m =
    store t i (bit_or (pa2pte p) 1) (fill_page p 0 (fill_page p 5 (record m { pages = ps })))

module _ (t i p : ℕ) (ps : List ℕ) (m : Memory) where
  linked-new : t ≢ p → (j : ℕ) → (linked t i p ps m).entries p j ≡ 0
  linked-new h j = ground arith

  linked-entry : (linked t i p ps m).entries t i ≡ bit_or (pa2pte p) 1
  linked-entry = ground arith

  linked-other :
      (u j : ℕ)
      → u ≢ p
      → (u == t && j == i) ≡ false
      → (linked t i p ps m).entries u j ≡ m.entries u j
  linked-other u j h e = ground arith

pub view-new : (level p va : ℕ) (m : Memory) → ((j : ℕ) → m.entries p j ≡ 0) → view level p va m ≡ 0
unfolding view
view-new zero p va m h = h (px 0 va)
view-new (suc level) p va m h = rw (h (px (suc level) va)) refl

module _ (role : ℕ → Role) (m : Memory) (valid : Shaped role m) (t i p root level key : ℕ)
    (ps : List ℕ) (table : role t ≡ node root (suc level) key) (index : i < 512)
    (unset : is_valid (m.entries t i) ≡ false) (taken : m.pages ≡ p ∷ ps) where
  abbrev after : Memory
  after = linked t i p ps m

  abbrev new : Role
  new = node root level (key * 512 + i)

  abbrev role_after : ℕ → Role
  role_after = assign p new role

  p-free : role p ≡ free
  p-free = (subst (All (λ q. role q ≡ free)) taken valid.unused).0

  p-aligned : p % 4096 ≡ 0
  p-aligned = (subst (All (λ q. q % 4096 ≡ 0)) taken valid.aligned).0

  t-ne-p : t ≢ p
  t-ne-p = free-ne-node role p-free table

  -- No address sees the new table.
  view-linked :
      (l u va root' key' : ℕ) → role u ≡ node root' l key' → view l u va after ≡ view l u va m
  unfolding view
  view-linked zero u va root' key' e = elim (Bool-cases (u == t && px 0 va == i)) [
    | inl h ↦
        let same : u ≡ t = ground (arith, h) in
        let bad : node root' 0 key' ≡ node root (suc level) key = sym e ∙ ap role same ∙ table in cc
    | inr h ↦ linked-other t i p ps m u (px 0 va) (free-ne-node role p-free e) h
  ]
  view-linked (suc l) u va root' key' e =
      let r = view-linked l (pte2pa (m.entries u (px (suc l) va))) va in
      elim (Bool-cases (u == t && px (suc l) va == i)) [
        | inl h ↦
            let same : u ≡ t = ground (arith, h) in
            let index : px (suc l) va ≡ i = ground (arith, h) in
            rw (same, index, linked-entry t i p ps m, unset, link-valid p, pte2pa-link p p-aligned)
              (view-new l p va after (linked-new t i p ps m t-ne-p))
        | inr h ↦
            rw (linked-other t i p ps m u (px (suc l) va) (free-ne-node role p-free e) h)
              (elim (Bool-cases (is_valid (m.entries u (px (suc l) va)))) [
                | inl v ↦ rw v (
                    r root' (key' * 512 + px (suc l) va)
                      (valid.children u root' l key' (px (suc l) va) e (omega arith) v))
                | inr v ↦ rw v refl
              ])
      ]

  children_after :
      (u root' l key' j : ℕ)
      → role_after u ≡ node root' (suc l) key'
      → j < 512
      → is_valid (after.entries u j) ≡ true
      → role_after (pte2pa (after.entries u j)) ≡ node root' l (key' * 512 + j)
  children_after u root' l key' j e h v = elim (Bool-cases (u == t && j == i)) [
    | inl k ↦
        let same : u ≡ t = ground (arith, k) in
        let index : j ≡ i = ground (arith, k) in
        let old : node root' (suc l) key' ≡ node root (suc level) key =
          sym e ∙ ap role_after same ∙ assign-ne p new role t-ne-p ∙ table in
        let here : role_after (pte2pa (after.entries u j)) ≡ new =
          rw (same, index, linked-entry t i p ps m, pte2pa-link p p-aligned)
            (assign_self p new role) in
        cc
    | inr k ↦ elim (Bool-cases (u == p)) [
      | inl q ↦
          let same : u ≡ p = ground (arith, q) in
          let bad = rw (same, linked-new t i p ps m t-ne-p j) at v in absurd (ground (arith, bad))
      | inr q ↦
          let apart : u ≢ p = ground (arith, q) in
          let old = linked-other t i p ps m u j apart k in
          let child =
            valid.children u root' l key' j (sym (assign-ne p new role apart) ∙ e) h
              (rw old at v) in
          ap (λ x. role_after (pte2pa x)) old
          ∙ assign-ne p new role (free-ne-node role p-free child)
          ∙ child
    ]
  ]

  pub linked-node : role_after p ≡ new
  linked-node = assign_self p new role

  pub linked-view : (va : ℕ) → view level p va after ≡ 0
  linked-view va = view-new level p va after (linked-new t i p ps m t-ne-p)

  linked-Shaped : Shaped role_after after
  linked-Shaped = record {
    children = children_after;
    unused =
        assign-free p new role ps (subst IsDistinct taken valid.distinct).0
          (subst (All (λ q. role q ≡ free)) taken valid.unused).1;
    aligned = (subst (All (λ q. q % 4096 ≡ 0)) taken valid.aligned).1;
    distinct = (subst IsDistinct taken valid.distinct).1;
  }

  extends_after :
      (u root' l key' j : ℕ)
      → role u ≡ node root' (suc l) key'
      → is_valid (m.entries u j) ≡ true
      → after.entries u j ≡ m.entries u j
  extends_after u root' l key' j e v = elim (Bool-cases (u == t && j == i)) [
    | inl k ↦
        let same : u ≡ t = ground (arith, k) in
        let index : j ≡ i = ground (arith, k) in
        let bad : is_valid (m.entries t i) ≡ true =
          subst (λ x. is_valid (m.entries t x) ≡ true) index
            (subst (λ x. is_valid (m.entries x j) ≡ true) same v) in
        absurd (ground (arith, bad, unset))
    | inr k ↦ linked-other t i p ps m u j (free-ne-node role p-free e) k
  ]

  pub linked-Grown : Grown role m role_after after
  linked-Grown = record {
    shaped = linked-Shaped;
    keeps = λ u root' l key' e. assign-ne p new role (free-ne-node role p-free e) ∙ e;
    views = view-linked;
    extends = extends_after;
  }

  linked-first : after.entries t i ≡ bit_or (pa2pte p) 1
  linked-first = linked-entry t i p ps m

  pub first-page : pte2pa (after.entries t i) ≡ p
  first-page = ap pte2pa linked-first ∙ pte2pa-link p p-aligned

  pub first-valid : is_valid (after.entries t i) ≡ true
  first-valid = ap is_valid linked-first ∙ link-valid p
