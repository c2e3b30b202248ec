-- ===== src/Kernel/Vm/Unmaps.antt =====
-- `uvmunmap` of kernel/vm.c over a range of pages.
use system_call_enhancement.Base.{
  ℕ, zero, suc, ◌+◌, ◌-◌, ◌*◌, ◌/◌, ◌%◌, ◌==◌, ltb, leb, true, false, ◌<◌, ◌≤◌, [], ◌∷◌, ◌++◌,
  append_assoc, ◌≡◌, ◌≢◌, refl, sym, ap, ap₂, ◌∙◌, arith, Bool-cases, inl, inr, subst,
}
use system_call_enhancement.Kernel.Spinlock.{ok, ◌>>=◌}
use system_call_enhancement.Kernel.Proc.{page_size}
use system_call_enhancement.Kernel.Kalloc.{round_up}
use system_call_enhancement.Kernel.Vm.{Memory, max_va, pte2pa}
use system_call_enhancement.Kernel.Vm.User.{unmap_from, uvmunmap, uvmdealloc}
use system_call_enhancement.Kernel.Vm.Roles.{Role, node, Shaped, entry_of}
use system_call_enhancement.Kernel.Vm.Mapping.{in_range}
use system_call_enhancement.Kernel.Vm.Unmap.{Backed, backing, Unmapped, one_page}

backing_same :
    (n root a : ℕ) (m m' : Memory)
    → ((j : ℕ) → j < n → entry_of root (a + j * 4096) m' ≡ entry_of root (a + j * 4096) m)
    → backing n root a m' ≡ backing n root a m
backing_same zero root a m m' h = refl
backing_same (suc n) root a m m' h =
    let first : a + 0 * 4096 ≡ a = omega arith in
    ap₂ (λ ps p. ps ++ (pte2pa p ∷ []))
      (backing_same n root (a + 4096) m m' (λ j q.
        let x : a + suc j * 4096 ≡ a + 4096 + j * 4096 = omega arith in
        subst (λ y. entry_of root y m' ≡ entry_of root y m) x (h (suc j) (omega arith))))
      (subst (λ y. entry_of root y m' ≡ entry_of root y m) first (h 0 (omega arith)))

module _ (kernel_end n root a : ℕ) (role : ℕ → Role) (m : Memory) (role₁ : ℕ → Role) (m₁ : Memory)
    (top : role root ≡ node root 2 0) (al : a % 4096 ≡ 0) (fits : a + suc n * 4096 ≤ max_va)
    (one : Unmapped role m root a 1 role₁ m₁) where
  -- The pages behind the first one keep their entries.
  behind :
      (j : ℕ) → j < n → entry_of root (a + 4096 + j * 4096) m₁ ≡ entry_of root (a + suc j * 4096) m
  behind j h =
      let x : a + 4096 + j * 4096 ≡ a + suc j * 4096 = omega arith in
      let out : in_range root a 1 root (a + suc j * 4096) ≡ false = ground arith in
      ap (λ y. entry_of root y m₁) x
      ∙ one.entries root (a + suc j * 4096) top (omega arith)
      ∙ rw out refl

  same_behind :
      (j : ℕ)
      → j < n
      → entry_of root (a + 4096 + j * 4096) m₁ ≡ entry_of root (a + 4096 + j * 4096) m
  same_behind j h =
      let x : a + 4096 + j * 4096 ≡ a + suc j * 4096 = omega arith in
      behind j h ∙ ap (λ y. entry_of root y m) (sym x)

  behind-Backed :
      ((j : ℕ) → j < suc n → Backed kernel_end role (entry_of root (a + j * 4096) m))
      → ((i j : ℕ)
          → i < j
          → j < suc n
          → pte2pa (entry_of root (a + i * 4096) m) ≢ pte2pa (entry_of root (a + j * 4096) m))
      → (j : ℕ) → j < n
      → Backed kernel_end role₁ (entry_of root (a + 4096 + j * 4096) m₁)
  behind-Backed backed apart j h =
      let e = behind j h in
      let b = backed (suc j) (omega arith) in
      let pa = pte2pa (entry_of root (a + suc j * 4096) m) in
      let kept : role₁ pa ≡ role pa = one.others pa (λ i q s.
        let z : i ≡ 0 = omega arith in
        apart 0 (suc j) (omega arith) (omega arith)
          (ap (λ k. pte2pa (entry_of root (a + k * 4096) m)) (sym z) ∙ sym s)) in
      subst (Backed kernel_end role₁) (sym e) (record {
        valid = b.valid;
        is_leaf = b.is_leaf;
        holds = kept ∙ b.holds;
        low = b.low;
        high = b.high;
      })

  behind-apart :
      ((i j : ℕ)
        → i < j
        → j < suc n
        → pte2pa (entry_of root (a + i * 4096) m) ≢ pte2pa (entry_of root (a + j * 4096) m))
      → (i j : ℕ) → i < j
      → j < n
      → pte2pa (entry_of root (a + 4096 + i * 4096) m₁)
        ≢ pte2pa (entry_of root (a + 4096 + j * 4096) m₁)
  behind-apart apart i j p q s =
      apart (suc i) (suc j) (omega arith) (omega arith)
        (sym (ap pte2pa (behind i (omega arith))) ∙ s ∙ ap pte2pa (behind j q))

  Unmapped-cons :
      (role₂ : ℕ → Role) (m₂ : Memory)
      → Unmapped role₁ m₁ root (a + 4096) n role₂ m₂
      → Unmapped role m root a (suc n) role₂ m₂
  Unmapped-cons role₂ m₂ rest = record {
    shaped = rest.shaped;
    keeps = λ u root' l key e. rest.keeps u root' l key (one.keeps u root' l key e);
    entries = λ root' x e h.
        let first = one.entries root' x e h in
        let second = rest.entries root' x (one.keeps root' root' 2 0 e) h in
        elim (Bool-cases (in_range root (a + 4096) n root' x)) [
          | inl r ↦
              let both : in_range root a (suc n) root' x ≡ true = ground (arith, r) in
              second ∙ (rw (r, both) refl)
          | inr r ↦ elim (Bool-cases (in_range root a 1 root' x)) [
            | inl q ↦
                let both : in_range root a (suc n) root' x ≡ true = ground (arith, q) in
                second ∙ (rw (r, both) (first ∙ rw q refl))
            | inr q ↦
                let both : in_range root a (suc n) root' x ≡ false = ground (arith, q, r) in
                second ∙ (rw (r, both) (first ∙ rw q refl))
          ]
        ];
    others = λ p h.
        rest.others p (λ j q s. h (suc j) (omega arith) (s ∙ ap pte2pa (behind j q)))
        ∙ one.others p (λ j q. h j (omega arith));
    pages =
        rest.pages
        ∙ ap₂ ◌++◌ (backing_same n root (a + 4096) m m₁ same_behind) one.pages
        ∙ sym
            (append_assoc (backing n root (a + 4096) m) (pte2pa (entry_of root a m) ∷ []) m.pages);
  }

pub unmap_from-Unmapped :
    (kernel_end n root a : ℕ) (role : ℕ → Role) (m : Memory)
    → Shaped role m
    → role root ≡ node root 2 0
    → a % 4096 ≡ 0
    → a + n * 4096 ≤ max_va
    → ((j : ℕ) → j < n → Backed kernel_end role (entry_of root (a + j * 4096) m))
    → ((i j : ℕ)
        → i < j
        → j < n
        → pte2pa (entry_of root (a + i * 4096) m) ≢ pte2pa (entry_of root (a + j * 4096) m))
    → (role' : ℕ → Role) × (m' : Memory) × (unmap_from kernel_end n root a true m ≡ ok m')
      × Unmapped role m root a n role' m'
unfolding unmap_from
unmap_from-Unmapped kernel_end zero root a role m shaped top al fits backed apart = (
  role,
  m,
  refl,
  record {
    shaped = shaped;
    keeps = λ u root' l key e. e;
    entries =
        λ root' x e h. let out : in_range root a 0 root' x ≡ false = ground arith in rw out refl;
    others = λ p h. refl;
    pages = refl;
  },
)
unmap_from-Unmapped kernel_end (suc n) root a role m shaped top al fits backed apart =
    let first : a + 0 * 4096 ≡ a = omega arith in
    let b =
      subst (λ y. Backed kernel_end role (entry_of root y m)) first (backed 0 (omega arith)) in
    let (role₁, m₁, go, one) = one_page kernel_end n root a role m shaped top (omega arith) al b in
    let (role₂, m₂, rest, all) =
      unmap_from-Unmapped kernel_end n root (a + page_size) role₁ m₁ one.shaped
        (one.keeps root root 2 0 top) (omega arith) (omega arith)
        (behind-Backed kernel_end n root a role m role₁ m₁ top al fits one backed apart)
        (behind-apart kernel_end n root a role m role₁ m₁ top al fits one apart) in
    (
      role₂,
      m₂,
      go ∙ rest,
      Unmapped-cons kernel_end n root a role m role₁ m₁ top al fits one role₂ m₂ all,
    )

uvmunmap-ok :
    (kernel_end root va n : ℕ) (m : Memory)
    → va % 4096 ≡ 0
    → uvmunmap kernel_end root va n true m ≡ unmap_from kernel_end n root va true m
unfolding uvmunmap
uvmunmap-ok kernel_end root va n m al =
    let e : (va % page_size == 0) ≡ true = ground (arith, al) in rw e refl

uvmdealloc-ok :
    (kernel_end root oldsz newsz n : ℕ) (m m' : Memory)
    → newsz < oldsz
    → round_up oldsz ≡ round_up newsz + n * 4096
    → unmap_from kernel_end n root (round_up newsz) true m ≡ ok m'
    → uvmdealloc kernel_end root oldsz newsz m ≡ ok (newsz, m')
unfolding uvmdealloc unmap_from
uvmdealloc-ok kernel_end root oldsz newsz zero m m' h size r =
    let less : leb oldsz newsz ≡ false = ground (arith, h) in
    let same : ltb (round_up newsz) (round_up oldsz) ≡ false = ground (arith, size) in
    rw (less, same) (ap (λ o. o >>= (λ m₁. ok (newsz, m₁))) r)
uvmdealloc-ok kernel_end root oldsz newsz (suc n) m m' h size r =
    let less : leb oldsz newsz ≡ false = ground (arith, h) in
    let more : ltb (round_up newsz) (round_up oldsz) ≡ true = ground (arith, size) in
    let count : (round_up oldsz - round_up newsz) / page_size ≡ suc n = omega (arith, size) in
    let go = uvmunmap-ok kernel_end root (round_up newsz) (suc n) m (omega arith) ∙ r in
    rw (less, more, count, go) refl

-- `uvmdealloc` to a smaller size, where the n pages between the two sizes, rounded up, lie below
-- MAXVA, each has a valid leaf entry for a page of data of its own that the allocator gave, and no
-- page of memory has two uses. It does not panic and returns the new size; these pages of data are
-- put on the allocator's list, the last one first; the addresses between the two sizes have no
-- entry any more, and all others, also those of other page tables, keep theirs; and no page of
-- memory has two uses.
pub uvmdealloc-Unmapped :
    (kernel_end root oldsz newsz n : ℕ) (role : ℕ → Role) (m : Memory)
    → Shaped role m
    → role root ≡ node root 2 0
    → newsz < oldsz
    → round_up oldsz ≡ round_up newsz + n * 4096
    → round_up oldsz ≤ max_va
    → ((j : ℕ) → j < n → Backed kernel_end role (entry_of root (round_up newsz + j * 4096) m))
    → ((i j : ℕ)
        → i < j
        → j < n
        → pte2pa (entry_of root (round_up newsz + i * 4096) m)
          ≢ pte2pa (entry_of root (round_up newsz + j * 4096) m))
    → (role' : ℕ → Role) × (m' : Memory) × (uvmdealloc kernel_end root oldsz newsz m
        ≡ ok (newsz, m'))
      × Unmapped role m root (round_up newsz) n role' m'
unfolding uvmdealloc
uvmdealloc-Unmapped kernel_end root oldsz newsz n role m shaped top h size fits backed apart =
    let a = round_up newsz in
    let al : a % 4096 ≡ 0 = omega arith in
    let (role', m', r, u) =
      unmap_from-Unmapped kernel_end n root a role m shaped top al (omega (arith, size, fits))
        backed apart in
    (role', m', uvmdealloc-ok kernel_end root oldsz newsz n m m' h size r, u)
