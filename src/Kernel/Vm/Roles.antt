-- ===== src/Kernel/Vm/Roles.antt =====
-- What the pages of memory are used for, for the page tables of kernel/vm.c: `walk` finds its way
-- because no page has two uses. A table of level l has as its key the part of the virtual address
-- that led to it.
use system_call_enhancement.Base.{
  ℕ, zero, suc, ◌+◌, ◌*◌, ◌/◌, ◌%◌, ◌==◌, if◌then◌else◌, true, ◌<◌, List, [], ◌∷◌, All, ◌≡◌, ◌≢◌,
  refl, sym, ap, ◌∙◌, arith,
}
use system_call_enhancement.Kernel.Vm.{Memory, pte2pa, is_valid, px}

pub data Role : Type 0 where
  free : Role
  node : (root level key : ℕ) → Role
  data_page : Role

-- The number of the page of va, less what the levels below `level` read of it
abbrev pub prefix_of : (level va : ℕ) → ℕ
prefix_of zero va = va / 4096
prefix_of (suc level) va = prefix_of level va / 512

-- No page twice
abbrev pub IsDistinct : List ℕ → Type 0
IsDistinct [] = Unit
IsDistinct (p ∷ ps) = All (λ q. p ≢ q) ps × IsDistinct ps

pub record Shaped (role : ℕ → Role) (m : Memory) : Type 0 where
  pub children :
      (t root level key i : ℕ)
      → role t ≡ node root (suc level) key
      → i < 512
      → is_valid (m.entries t i) ≡ true
      → role (pte2pa (m.entries t i)) ≡ node root level (key * 512 + i)
  pub unused : All (λ p. role p ≡ free) m.pages
  pub aligned : All (λ p. p % 4096 ≡ 0) m.pages
  pub distinct : IsDistinct m.pages

-- The entry that the tables hold for va, with 0 for one that is missing: what a page table is for.
unfoldable pub view : (level table va : ℕ) → Memory → ℕ
view zero table va m = m.entries table (px 0 va)
view (suc level) table va m =
    let pte = m.entries table (px (suc level) va) in
    let below = view level (pte2pa pte) va m in if is_valid pte then below else 0

abbrev pub entry_of : (root va : ℕ) → Memory → ℕ
entry_of root va m = view 2 root va m

-- For three levels, an index is a digit of the page's number.
pub px-prefix_of : (level va : ℕ) → level < 3 → px level va ≡ prefix_of level va % 512
px-prefix_of zero va h = refl
px-prefix_of (suc zero) va h = omega arith
px-prefix_of (suc (suc zero)) va h = omega arith
px-prefix_of (suc (suc (suc n))) va h = absurd (omega arith)

-- The role of a page, set
abbrev pub assign : (p : ℕ) → Role → (ℕ → Role) → ℕ → Role
assign p r role t = if t == p then r else role t

pub assign_self : (p : ℕ) (r : Role) (role : ℕ → Role) → assign p r role p ≡ r
assign_self p r role = ground arith

pub assign-ne : (p : ℕ) (r : Role) (role : ℕ → Role) {t : ℕ} → t ≢ p → assign p r role t ≡ role t
assign-ne p r role h = ground arith

pub assign-free :
    (p : ℕ) (r : Role) (role : ℕ → Role) (ps : List ℕ)
    → All (λ q. p ≢ q) ps
    → All (λ q. role q ≡ free) ps
    → All (λ q. assign p r role q ≡ free) ps
assign-free p r role [] d f = f
assign-free p r role (q ∷ ps) (d, ds) (f, fs) =
    (assign-ne p r role (λ e. d (sym e)) ∙ f, assign-free p r role ps ds fs)

pub free-ne-node :
    (role : ℕ → Role) {p t root level key : ℕ}
    → role p ≡ free
    → role t ≡ node root level key
    → t ≢ p
free-ne-node role {p} {t} {root} {level} {key} f n e =
    let bad : node root level key ≡ free = sym n ∙ ap role e ∙ f in cc

-- What holds of a memory that was made from a shaped one without a change to what an address sees:
-- it is shaped, the pages in use keep their roles, every table shows what it did, and the entries
-- for tables stay.
pub record Grown (role : ℕ → Role) (m : Memory) (role' : ℕ → Role) (m' : Memory) : Type 0 where
  pub shaped : Shaped role' m'
  pub keeps : (u root l key : ℕ) → role u ≡ node root l key → role' u ≡ node root l key
  pub views : (l u va root key : ℕ) → role u ≡ node root l key → view l u va m' ≡ view l u va m
  pub extends :
      (u root l key j : ℕ)
      → role u ≡ node root (suc l) key
      → is_valid (m.entries u j) ≡ true
      → m'.entries u j ≡ m.entries u j

pub Grown-refl : (role : ℕ → Role) (m : Memory) → Shaped role m → Grown role m role m
Grown-refl role m h = record {
  shaped = h;
  keeps = λ u root l key e. e;
  views = λ l u va root key e. refl;
  extends = λ u root l key j e v. refl;
}

pub Grown-trans :
    (role : ℕ → Role) (m : Memory) (role₁ : ℕ → Role) (m₁ : Memory) (role₂ : ℕ → Role) (m₂ : Memory)
    → Grown role m role₁ m₁
    → Grown role₁ m₁ role₂ m₂
    → Grown role m role₂ m₂
Grown-trans role m role₁ m₁ role₂ m₂ a b = record {
  shaped = b.shaped;
  keeps = λ u root l key e. b.keeps u root l key (a.keeps u root l key e);
  views = λ l u va root key e.
      b.views l u va root key (a.keeps u root l key e) ∙ a.views l u va root key e;
  extends = λ u root l key j e v.
      let first = a.extends u root l key j e v in
      b.extends u root l key j (a.keeps u root (suc l) key e) (ap is_valid first ∙ v) ∙ first;
}
