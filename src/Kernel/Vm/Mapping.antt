-- ===== src/Kernel/Vm/Mapping.antt =====
-- What `mappages` of kernel/vm.c maps, seen through the entry that every address has.
use system_call_enhancement.Base.{
  ℕ, zero, suc, ◌+◌, ◌-◌, ◌*◌, ◌/◌, ◌%◌, ◌==◌, ltb, leb, if◌then◌else◌, Bool, true, false, ◌&&◌,
  ◌<◌, [], some, ◌≡◌, ◌≢◌, ◌⊎◌, refl, sym, ap, ◌∙◌, arith, Bool-cases, inl, inr,
}
use Prim.Native.Nat.{bit_or}
use system_call_enhancement.Kernel.Spinlock.{Outcome, ok}
use system_call_enhancement.Kernel.Vm.{Memory, max_va, pa2pte, pte2pa, px, store, walk_from}
use system_call_enhancement.Kernel.Vm.Roles.{
  Role, node, Shaped, view, entry_of, prefix_of, px-prefix_of, Grown,
}
use system_call_enhancement.Kernel.Vm.Leaf.{store-Shaped, view-store_self, view-store_ne}

-- The entry for a page with its permissions
abbrev pub leaf : (pa perm : ℕ) → ℕ
leaf pa perm = bit_or (bit_or (pa2pte pa) perm) 1

-- Whether an address of a table is on one of the k pages from `a` on.
abbrev pub in_range : (root a k root' x : ℕ) → Bool
in_range root a k root' x = root' == root && (leb a x && ltb x (a + k * 4096))

-- The entries of all tables with k pages more.
abbrev pub with_pages : (root a k pa perm : ℕ) → Memory → (root' x : ℕ) → ℕ
with_pages root a k pa perm m root' x =
    if in_range root a k root' x
    then leaf (pa + (x / 4096 - a / 4096) * 4096) perm
    else entry_of root' x m

pub record Mapped (role : ℕ → Role) (m : Memory) (root a k pa perm : ℕ) (role' : ℕ → Role)
    (m' : Memory) : Type 0 where
  pub shaped : Shaped role' m'
  pub keeps : (u root l key : ℕ) → role u ≡ node root l key → role' u ≡ node root l key
  pub entries :
      (root' x : ℕ)
      → role root' ≡ node root' 2 0
      → x < max_va
      → entry_of root' x m' ≡ with_pages root a k pa perm m root' x

-- What `mappages` returns for k pages: all of them are mapped, or the first j of them, because no
-- page is left for a table.
pub data MapResult (role : ℕ → Role) (m : Memory) (root a k pa perm : ℕ)
    (result : Outcome (Bool × Memory)) : Type 0 where
  mapped :
      (role' : ℕ → Role) (m' : Memory)
      → result ≡ ok (true, m')
      → Mapped role m root a k pa perm role' m'
      → MapResult role m root a k pa perm result
  exhausted :
      (role' : ℕ → Role) (m' : Memory) (j : ℕ)
      → result ≡ ok (false, m')
      → j < k
      → Mapped role m root a j pa perm role' m'
      → m'.pages ≡ []
      → MapResult role m root a k pa perm result

-- Two addresses on one page
prefix_of_same : (l x y : ℕ) → prefix_of 0 x ≡ prefix_of 0 y → prefix_of l x ≡ prefix_of l y
prefix_of_same zero x y e = e
prefix_of_same (suc l) x y e = ap (λ n. n / 512) (prefix_of_same l x y e)

px_same : (l x y : ℕ) → l < 3 → prefix_of 0 x ≡ prefix_of 0 y → px l x ≡ px l y
px_same l x y h e =
    px-prefix_of l x h ∙ ap (λ n. n % 512) (prefix_of_same l x y e) ∙ sym (px-prefix_of l y h)

view_same :
    (l u x y : ℕ) (m : Memory) → l < 3 → prefix_of 0 x ≡ prefix_of 0 y → view l u x m ≡ view l u y m
unfolding view
view_same zero u x y m h e = ap (m.entries u) (px_same 0 x y h e)
view_same (suc l) u x y m h e =
    let j = px_same (suc l) x y h e in
    let down = view_same l (pte2pa (m.entries u (px (suc l) y))) x y m (omega arith) e in
    rw (j, down) refl

pub root_key : (x : ℕ) → x < max_va → prefix_of 3 x ≡ 0
root_key x h = omega arith

-- A store into the entry for `a` that `walk` finds in a memory that grew: the addresses on its page
-- see it, and no others.
pub entries_stored :
    (role : ℕ → Role) (m : Memory) (root a v : ℕ) (role' : ℕ → Role) (m' : Memory) (t : ℕ)
    → a < max_va
    → a % 4096 ≡ 0
    → Grown role m role' m'
    → role' t ≡ node root 0 (prefix_of 1 a)
    → walk_from false 2 root a m' ≡ (some (t, px 0 a), m')
    → (root' x : ℕ) → role root' ≡ node root' 2 0
    → x < max_va
    → entry_of root' x (store t (px 0 a) v m')
      ≡ (if in_range root a 1 root' x then v else entry_of root' x m)
entries_stored role m root a v role' m' t h al g n w root' x e' h' =
    let here = g.keeps root' root' 2 0 e' in
    elim (Bool-cases (in_range root a 1 root' x)) [
      | inl k ↦
          let same : root' ≡ root = ground (arith, k) in
          let page : prefix_of 0 x ≡ prefix_of 0 a = ground (arith, k) in
          rw k (
            view_same 2 root' x a (store t (px 0 a) v m') (omega arith) page
            ∙ view-store_self role' m' g.shaped t root (prefix_of 1 a) n (px 0 a) v 2 root' root' a
                (omega arith) (here ∙ ap (node root' 2) (sym (root_key a h))) refl
                (ap (λ u. walk_from false 2 u a m') same ∙ w))
      | inr k ↦
          let apart : (root' ≢ root) ⊎ (prefix_of 0 x ≢ prefix_of 1 a * 512 + px 0 a) =
            elim (Bool-cases (root' == root)) [
              | inr q ↦ inl (ground (arith, q))
              | inl q ↦ inr (λ b. absurd (ground (arith, q, k, b, al)))
            ] in
          rw k (
            view-store_ne role' m' g.shaped t root (prefix_of 1 a) n (px 0 a) v 2 root' root' x
              (omega arith) (here ∙ ap (node root' 2) (sym (root_key x h'))) apart
            ∙ g.views 2 root' x root' 0 e')
    ]

module _ (role : ℕ → Role) (m : Memory) (root a pa perm : ℕ) where
  -- Nothing mapped yet
  pub Mapped-none :
      (role' : ℕ → Role) (m' : Memory)
      → Grown role m role' m'
      → Mapped role m root a 0 pa perm role' m'
  Mapped-none role' m' g = record {
    shaped = g.shaped;
    keeps = g.keeps;
    entries = λ root' x e h. g.views 2 root' x root' 0 e ∙ sym (ground arith);
  }

  -- One page, in the table that `walk` found
  pub Mapped-one :
      (role' : ℕ → Role) (m' : Memory) (t : ℕ)
      → role root ≡ node root 2 0
      → a < max_va
      → a % 4096 ≡ 0
      → Grown role m role' m'
      → role' t ≡ node root 0 (prefix_of 1 a)
      → walk_from false 2 root a m' ≡ (some (t, px 0 a), m')
      → Mapped role m root a 1 pa perm role' (store t (px 0 a) (leaf pa perm) m')
  Mapped-one role' m' t e h al g n w = record {
    shaped = store-Shaped role' m' g.shaped t root (prefix_of 1 a) n (px 0 a) (leaf pa perm);
    keeps = g.keeps;
    entries = λ root' x e' h'.
        let seen =
          entries_stored role m root a (leaf pa perm) role' m' t h al g n w root' x e' h' in
        seen ∙ (elim (Bool-cases (in_range root a 1 root' x)) [
          | inl k ↦
              let at : pa + (x / 4096 - a / 4096) * 4096 ≡ pa = ground (arith, k) in rw (k, at) refl
          | inr k ↦ rw k refl
        ]);
  }
