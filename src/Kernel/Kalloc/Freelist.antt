-- ===== src/Kernel/Kalloc/Freelist.antt =====
-- The free list of kernel/kalloc.c as a stack of distinct pages.
use system_call_enhancement.Base.{
  ℕ, ◌≤◌, ◌<◌, ◌%◌, ◌==◌, ltb, leb, false, not, ◌||◌, List, [], ◌∷◌, All, ◌≡◌, ◌≢◌, refl, arith,
  subst,
}
use system_call_enhancement.Kernel.Spinlock.{ok, panic, Hart}
use system_call_enhancement.Kernel.Spinlock.Nesting.{
  IsNested, IsFree, settle, acquire_free, release-held_by,
}
use system_call_enhancement.Kernel.Proc.{page_size}
use system_call_enhancement.Kernel.Kalloc.{
  phystop, Kmem, write, junk_freed, junk_new, put_page, kfree, kalloc,
}

-- From address a on, the links lead through the pages ps to a null pointer.
abbrev pub Chain : (ℕ → ℕ) → ℕ → List ℕ → Type 0
Chain words a [] = a ≡ 0
Chain words a (p ∷ ps) = (a ≡ p) × (p ≢ 0) × Chain words (words p) ps

-- No page stands twice.
abbrev pub AllDistinct : List ℕ → Type 0
AllDistinct [] = Unit
AllDistinct (p ∷ ps) = All (λ q. p ≢ q) ps × AllDistinct ps

-- The lock is free, and the pages ps, in this order, are those on the free list.
pub record Holds (m : Kmem) (ps : List ℕ) : Type 0 where
  pub lock_free : IsFree m.lock
  pub chain : Chain m.words m.freelist ps
  pub distinct : AllDistinct ps

-- A write to a page that is not on the list.
Chain-write :
    (words : ℕ → ℕ) (p v a : ℕ) (ps : List ℕ)
    → All (λ q. p ≢ q) ps
    → Chain words a ps
    → Chain (write words p v) a ps
Chain-write words p v a [] other c = c
Chain-write words p v a (q ∷ ps) (ne, others) (e, nonzero, c) =
    let same : words q ≡ write words p v q = ground (arith, ne) in
    (
      e,
      nonzero,
      subst (λ b. Chain (write words p v) b ps) same (Chain-write words p v (words q) ps others c),
    )

put_page_lem :
    (pa : ℕ) {h : Hart} (m : Kmem)
    → IsNested h
    → IsFree m.lock
    → put_page pa h m
      ≡ ok (settle h, record m { freelist = pa; words = write m.words pa m.freelist })
unfolding put_page
put_page_lem pa {h} m n free =
    rw (acquire_free h m.lock free.unlocked, release-held_by m.lock n free)

-- `kfree` of a page of the memory that is not on the free list puts it in front of the list;
-- an address that is not aligned, or outside the memory of the allocator, is a panic.
pub kfree_lem :
    (kernel_end pa : ℕ) (h : Hart) (m : Kmem) (ps : List ℕ)
    → IsNested h
    → Holds m ps
    → (pa % page_size ≡ 0
        → kernel_end ≤ pa
        → pa < phystop
        → pa ≢ 0
        → All (λ q. pa ≢ q) ps
        → (m' : Kmem) × (kfree kernel_end pa h m ≡ ok (settle h, m')) × Holds m' (pa ∷ ps))
      × (pa % page_size ≢ 0 → kfree kernel_end pa h m ≡ panic)
      × (pa < kernel_end → kfree kernel_end pa h m ≡ panic)
      × (phystop ≤ pa → kfree kernel_end pa h m ≡ panic)
unfolding kfree
kfree_lem kernel_end pa h m ps n l =
    (accepted, (λ e. ground arith), (λ e. ground arith), λ e. ground arith)
  where
    filled : Kmem
    filled = record m { words = write m.words pa junk_freed }

    freed : Kmem
    freed = record filled { freelist = pa; words = write filled.words pa m.freelist }

    accepted :
        pa % page_size ≡ 0
        → kernel_end ≤ pa
        → pa < phystop
        → pa ≢ 0
        → All (λ q. pa ≢ q) ps
        → (m' : Kmem) × (kfree kernel_end pa h m ≡ ok (settle h, m')) × Holds m' (pa ∷ ps)
    accepted aligned low high nonzero others =
        let fine : (not (pa % page_size == 0) || (ltb pa kernel_end || leb phystop pa)) ≡ false =
          ground arith in
        let link : m.freelist ≡ write filled.words pa m.freelist pa = ground arith in
        (
          freed,
          rw (fine, put_page_lem pa filled n l.lock_free),
          record {
            lock_free = l.lock_free;
            chain = (
              refl,
              nonzero,
              subst (λ b. Chain freed.words b ps) link
                  (Chain-write filled.words pa m.freelist m.freelist ps others
                    (Chain-write m.words pa junk_freed m.freelist ps others l.chain)),
            );
            distinct = (others, l.distinct);
          },
        )

-- `kalloc` with no page on the free list returns 0 and changes nothing but `intena`.
pub kalloc_empty :
    (h : Hart) (m : Kmem) → IsNested h → Holds m [] → kalloc h m ≡ ok (0, settle h, m)
unfolding kalloc
kalloc_empty h m n l =
    rw (acquire_free h m.lock l.lock_free.unlocked, release-held_by m.lock n l.lock_free)
      (ground (arith, l.chain))

-- `kalloc` with page p in front of the free list, and the pages ps behind it, returns p and leaves
-- ps on the list.
pub kalloc_pops :
    (h : Hart) (m : Kmem) (p : ℕ) (ps : List ℕ)
    → IsNested h
    → Holds m (p ∷ ps)
    → (m' : Kmem) × (kalloc h m ≡ ok (p, settle h, m')) × Holds m' ps
unfolding kalloc
kalloc_pops h m p ps n l =
    let (at_p, nonzero, rest) = l.chain in
    let (others, distinct) = l.distinct in
    let m' = record m {
      freelist = m.words m.freelist;
      words = write m.words m.freelist junk_new;
    } in
    (
      m',
      rw (acquire_free h m.lock l.lock_free.unlocked, release-held_by m.lock n l.lock_free)
          (ground (arith, at_p, nonzero)),
      record {
        lock_free = l.lock_free;
        chain = rw at_p (Chain-write m.words p junk_new (m.words p) ps others rest);
        distinct = distinct;
      },
    )
