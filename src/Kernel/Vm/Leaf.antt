-- ===== src/Kernel/Vm/Leaf.antt =====
-- A store into an entry of a table of the last level: which addresses see it.
use system_call_enhancement.Base.{
  ℕ, zero, suc, ◌+◌, ◌*◌, ◌==◌, false, ◌&&◌, ◌<◌, Option, none, some, ◌≡◌, ◌≢◌, ◌⊎◌, refl, sym, ap,
  ◌∙◌, arith, Bool-cases, inl, inr,
}
use system_call_enhancement.Kernel.Vm.{Memory, pte2pa, is_valid, px, store, walk_from}
use system_call_enhancement.Kernel.Vm.Roles.{Role, node, Shaped, view, prefix_of, px-prefix_of}
use system_call_enhancement.Kernel.Vm.Walk.{child_key, walk_from-valid}

pub store_self : (t i x : ℕ) (m : Memory) → (store t i x m).entries t i ≡ x
store_self t i x m = ground arith

pub store-other :
    (t i x u j : ℕ) (m : Memory)
    → (u == t && j == i) ≡ false
    → (store t i x m).entries u j ≡ m.entries u j
store-other t i x u j m h = rw h refl

pub walk_from-invalid :
    (level table va : ℕ) (m : Memory)
    → is_valid (m.entries table (px (suc level) va)) ≡ false
    → walk_from false (suc level) table va m ≡ (none, m)
unfolding walk_from
walk_from-invalid level table va m v = rw (walk_from, v) refl

-- The table in what `walk` returns
abbrev pub end_of : Option (ℕ × ℕ) × Memory → ℕ
end_of (r, m) = elim r [ none ↦ 0 | some (t, i) ↦ t ]

module _ (role : ℕ → Role) (m : Memory) (valid : Shaped role m) (t root key : ℕ)
    (table : role t ≡ node root 0 key) (i x : ℕ) where
  abbrev after : Memory
  after = store t i x m

  upper-apart :
      (u root' l key' j : ℕ) → role u ≡ node root' (suc l) key' → (u == t && j == i) ≡ false
  upper-apart u root' l key' j e = elim (Bool-cases (u == t && j == i)) [
    | inr h ↦ h
    | inl h ↦
        let same : u ≡ t = ground (arith, h) in
        let bad : node root' (suc l) key' ≡ node root 0 key = sym e ∙ ap role same ∙ table in cc
  ]

  pub upper-same :
      (u root' l key' j : ℕ) → role u ≡ node root' (suc l) key' → after.entries u j ≡ m.entries u j
  upper-same u root' l key' j e = store-other t i x u j m (upper-apart u root' l key' j e)

  pub store-Shaped : Shaped role after
  store-Shaped = record {
    children = λ u root' l key' j e h v.
        let old = upper-same u root' l key' j e in
        ap (λ y. role (pte2pa y)) old
        ∙ valid.children u root' l key' j e h (sym (ap is_valid old) ∙ v);
    unused = valid.unused;
    aligned = valid.aligned;
    distinct = valid.distinct;
  }

  pub view-store_self :
      (l u root' va : ℕ)
      → l < 3
      → role u ≡ node root' l (prefix_of (suc l) va)
      → px 0 va ≡ i
      → walk_from false l u va m ≡ (some (t, px 0 va), m)
      → view l u va after ≡ x
  unfolding view walk_from
  view-store_self zero u root' va h e p w =
      let same : u ≡ t = ap end_of w in rw (same, p) (store_self t i x m)
  view-store_self (suc l) u root' va h e p w =
      let j = px (suc l) va in
      let old = upper-same u root' l (prefix_of (suc (suc l)) va) j e in
      elim (Bool-cases (is_valid (m.entries u j))) [
        | inl v ↦
            let child = valid.children u root' l (prefix_of (suc (suc l)) va) j e (omega arith) v in
            rw (old, v)
              (view-store_self l (pte2pa (m.entries u j)) root' va (omega arith)
                (child ∙ ap (node root' l) (child_key l va h)) p
                (sym (walk_from-valid false l u va m v) ∙ w))
        | inr v ↦ absurd (ground (arith, sym (walk_from-invalid l u va m v) ∙ w))
      ]

  pub view-store_ne :
      (l u root' va : ℕ)
      → l < 3
      → role u ≡ node root' l (prefix_of (suc l) va)
      → (root' ≢ root) ⊎ (prefix_of 0 va ≢ key * 512 + i)
      → view l u va after ≡ view l u va m
  unfolding view
  view-store_ne zero u root' va h e d = elim (Bool-cases (u == t && px 0 va == i)) [
    | inr k ↦ store-other t i x u (px 0 va) m k
    | inl k ↦
        let same : u ≡ t = ground (arith, k) in
        let index : px 0 va ≡ i = ground (arith, k) in
        let eq : node root' 0 (prefix_of 1 va) ≡ node root 0 key = sym e ∙ ap role same ∙ table in
        elim d [
          | inl n ↦ absurd (n cc)
          | inr n ↦ absurd (
              n (let k' : prefix_of 1 va ≡ key = cc in omega (arith, k', index, px-prefix_of 0 va)))
        ]
  ]
  view-store_ne (suc l) u root' va h e d =
      let old = upper-same u root' l (prefix_of (suc (suc l)) va) (px (suc l) va) e in
      rw old (elim (Bool-cases (is_valid (m.entries u (px (suc l) va)))) [
        | inr v ↦ rw v refl
        | inl v ↦
            let child =
              valid.children u root' l (prefix_of (suc (suc l)) va) (px (suc l) va) e (omega arith)
                v in
            rw v (
              view-store_ne l (pte2pa (m.entries u (px (suc l) va))) root' va (omega arith)
                (child ∙ ap (node root' l) (child_key l va h)) d)
      ])
