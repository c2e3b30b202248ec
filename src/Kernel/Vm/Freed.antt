-- ===== src/Kernel/Vm/Freed.antt =====
-- A page of data that `kfree` takes back leaves the page tables of kernel/vm.c as they are.
use system_call_enhancement.Base.{
  ℕ, zero, suc, ◌+◌, ◌*◌, ◌%◌, ◌==◌, ltb, leb, true, false, ◌<◌, ◌≤◌, List, [], ◌∷◌, All, ◌≡◌, ◌≢◌,
  refl, sym, ap, ◌∙◌, arith, Bool-cases, inl, inr,
}
use system_call_enhancement.Kernel.Spinlock.{ok}
use system_call_enhancement.Kernel.Proc.{page_size}
use system_call_enhancement.Kernel.Kalloc.{phystop}
use system_call_enhancement.Kernel.Vm.{Memory, pte2pa, is_valid, px, fill_page}
use system_call_enhancement.Kernel.Vm.User.{kfree}
use system_call_enhancement.Kernel.Vm.Roles.{
  Role, free, node, data_page, Shaped, view, assign, assign_self, assign-ne, Grown,
}

pub kfree-ok :
    (kernel_end pa : ℕ) (m : Memory)
    → pa % 4096 ≡ 0
    → kernel_end ≤ pa
    → pa < phystop
    → kfree kernel_end pa m ≡ ok (record (fill_page pa 1 m) { pages = pa ∷ m.pages })
unfolding kfree
kfree-ok kernel_end pa m al low high =
    let e : (pa % page_size == 0) ≡ true = ground (arith, al) in
    let f : ltb pa kernel_end ≡ false = ground arith in
    let g : leb phystop pa ≡ false = ground arith in rw (e, f, g) refl

module _ (role : ℕ → Role) (m : Memory) (shaped : Shaped role m) (pa : ℕ)
    (holds : role pa ≡ data_page) (al : pa % 4096 ≡ 0) where
  abbrev after : Memory
  after = record (fill_page pa 1 m) { pages = pa ∷ m.pages }

  abbrev role_after : ℕ → Role
  role_after = assign pa free role

  node-ne : (t root l key : ℕ) → role t ≡ node root l key → t ≢ pa
  node-ne t root l key e q = let bad : node root l key ≡ data_page = sym e ∙ ap role q ∙ holds in cc

  kept : (t root l key : ℕ) → role t ≡ node root l key → role_after t ≡ node root l key
  kept t root l key e = assign-ne pa free role (node-ne t root l key e) ∙ e

  kept_back : (t root l key : ℕ) → role_after t ≡ node root l key → role t ≡ node root l key
  kept_back t root l key e = elim (Bool-cases (t == pa)) [
    | inl q ↦
        let same : t ≡ pa = ground (arith, q) in
        let bad : node root l key ≡ free = sym e ∙ ap role_after same ∙ assign_self pa free role in
        cc
    | inr q ↦ sym (assign-ne pa free role (ground (arith, q))) ∙ e
  ]

  same_entry : (t j : ℕ) → t ≢ pa → after.entries t j ≡ m.entries t j
  same_entry t j h = ground arith

  same_view : (l t va root key : ℕ) → role t ≡ node root l key → view l t va after ≡ view l t va m
  unfolding view
  same_view zero t va root key e = same_entry t (px 0 va) (node-ne t root 0 key e)
  same_view (suc l) t va root key e =
      let j = px (suc l) va in
      let r = same_view l (pte2pa (m.entries t j)) va root (key * 512 + j) in
      rw (same_entry t j (node-ne t root (suc l) key e))
        (elim (Bool-cases (is_valid (m.entries t j))) [
          | inl v ↦ rw v (r (shaped.children t root l key j e (omega arith) v))
          | inr v ↦ rw v refl
        ])

  still_free : (ps : List ℕ) → All (λ q. role q ≡ free) ps → All (λ q. role_after q ≡ free) ps
  still_free [] h = h
  still_free (q ∷ ps) (h, hs) = (
    elim (Bool-cases (q == pa)) [
      | inl e ↦
          let same : q ≡ pa = ground (arith, e) in ap role_after same ∙ assign_self pa free role
      | inr e ↦ assign-ne pa free role (ground (arith, e)) ∙ h
    ],
    still_free ps hs,
  )

  apart_from : (ps : List ℕ) → All (λ q. role q ≡ free) ps → All (λ q. pa ≢ q) ps
  apart_from [] h = h
  apart_from (q ∷ ps) (h, hs) = (
    λ e. let bad : free ≡ data_page = sym h ∙ ap role (sym e) ∙ holds in absurd cc,
    apart_from ps hs,
  )

  pub freed-Grown : Grown role m role_after after
  freed-Grown = record {
    shaped = record {
      children = λ t root l key i e h v.
          let e' = kept_back t root (suc l) key e in
          let old = same_entry t i (node-ne t root (suc l) key e') in
          let child = shaped.children t root l key i e' h (sym (ap is_valid old) ∙ v) in
          ap (λ y. role_after (pte2pa y)) old
          ∙ kept (pte2pa (m.entries t i)) root l (key * 512 + i) child;
      unused = (assign_self pa free role, still_free m.pages shaped.unused);
      aligned = (al, shaped.aligned);
      distinct = (apart_from m.pages shaped.unused, shaped.distinct);
    };
    keeps = λ u root l key e. kept u root l key e;
    views = same_view;
    extends = λ u root l key j e v. same_entry u j (node-ne u root (suc l) key e);
  }
