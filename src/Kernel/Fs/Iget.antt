-- ===== src/Kernel/Fs/Iget.antt =====
-- `iget` of kernel/fs.c keeps one entry of the table for each inode in use.
use system_call_enhancement.Base.{
  ℕ, zero, suc, ◌+◌, ◌==◌, true, false, ◌<◌, List, [], ◌∷◌, Option, none, some, get_elem?, ◌≡◌, ◌≢◌,
  ◌⊎◌, refl, sym, ap, ◌∙◌, arith, Bool-cases, inl, inr, subst,
}
use system_call_enhancement.Kernel.Fs.Inode.{Inode}
use system_call_enhancement.Kernel.Fs.Itable.{
  is_inode, remember, cached, empty, find_inode, add_ref, recycled, change, iget,
}

-- What the loop finds from index i on, with an empty entry seen before or not
data Found (ips : List Inode) (i : ℕ) (seen : Option ℕ) (dev inum : ℕ) : Type 0 where
  hit :
      (k : ℕ) (ip : Inode)
      → find_inode ips i seen dev inum ≡ cached (k + i)
      → get_elem? ips k ≡ some ip
      → is_inode dev inum ip ≡ true
      → Found ips i seen dev inum
  miss :
      ((k : ℕ) (ip : Inode) → get_elem? ips k ≡ some ip → is_inode dev inum ip ≡ false)
      → (e : ℕ) → seen ≡ some e
      → find_inode ips i seen dev inum ≡ empty (some e)
      → Found ips i seen dev inum
  miss_free :
      ((k : ℕ) (ip : Inode) → get_elem? ips k ≡ some ip → is_inode dev inum ip ≡ false)
      → (k : ℕ) (ip : Inode) → find_inode ips i seen dev inum ≡ empty (some (k + i))
      → get_elem? ips k ≡ some ip
      → ip.ref ≡ 0
      → Found ips i seen dev inum
  miss_full :
      ((k : ℕ) (ip : Inode)
        → get_elem? ips k ≡ some ip
        → (is_inode dev inum ip ≡ false) × (0 < ip.ref))
      → seen ≡ none
      → find_inode ips i seen dev inum ≡ empty none
      → Found ips i seen dev inum

-- An entry in front
in_front {κ} :
    (P : Inode → Type κ) (ip : Inode) (ips : List Inode)
    → P ip
    → ((k : ℕ) (x : Inode) → get_elem? ips k ≡ some x → P x)
    → (k : ℕ) (x : Inode) → get_elem? (ip ∷ ips) k ≡ some x
    → P x
in_front P ip ips h hs zero x e = subst P (let r : ip ≡ x = cc in r) h
in_front P ip ips h hs (suc k) x e = hs k x e

remember-cases :
    (i : ℕ) (ip : Inode) (seen : Option ℕ)
    → (remember i ip seen ≡ seen) ⊎ ((ip.ref ≡ 0) × (remember i ip seen ≡ some i))
remember-cases i ip (some e) = inl refl
remember-cases i ip none = elim (Bool-cases (ip.ref == 0)) [
  | inl h ↦ inr (ground (arith, h), rw h refl)
  | inr h ↦ inl (rw h refl)
]

remember-none : (i : ℕ) (ip : Inode) (seen : Option ℕ) → remember i ip seen ≡ none → 0 < ip.ref
remember-none i ip (some e) h = absurd (ground (arith, h))
remember-none i ip none h = ground (arith, h)

find_inode-Found :
    (ips : List Inode) (i : ℕ) (seen : Option ℕ) (dev inum : ℕ) → Found ips i seen dev inum
unfolding find_inode
find_inode-Found [] i none dev inum = miss_full (λ k ip e. absurd (ground (arith, e))) refl refl
find_inode-Found [] i (some s) dev inum = miss (λ k ip e. absurd (ground (arith, e))) s refl refl
find_inode-Found (ip ∷ ips) i seen dev inum = elim (Bool-cases (is_inode dev inum ip)) [
  | inl h ↦ hit 0 ip (rw h (ap cached (omega arith))) refl h
  | inr h ↦ elim (find_inode-Found ips (suc i) (remember i ip seen) dev inum) [
    | hit k x e g r ↦ hit (suc k) x (rw (h, e) (ap cached (omega arith))) g r
    | miss m e s r ↦ elim (remember-cases i ip seen) [
      | inl q ↦
          miss (in_front (λ x. is_inode dev inum x ≡ false) ip ips h m) e (sym q ∙ s)
            (rw (h, r) refl)
      | inr q ↦
          let same : e ≡ i = let both = sym q.1 ∙ s in ground (arith, both) in
          miss_free (in_front (λ x. is_inode dev inum x ≡ false) ip ips h m) 0 ip
            (rw (h, r) (ap (λ n. empty (some n)) (omega (arith, same)))) refl q.0
    ]
    | miss_free m k x e g r ↦
        miss_free (in_front (λ x. is_inode dev inum x ≡ false) ip ips h m) (suc k) x
          (rw (h, e) (ap (λ n. empty (some n)) (omega arith))) g r
    | miss_full m s e ↦ elim (remember-cases i ip seen) [
      | inr q ↦ let bad = sym q.1 ∙ s in absurd (ground (arith, bad))
      | inl q ↦
          miss_full
            (in_front (λ x. (is_inode dev inum x ≡ false) × (0 < x.ref)) ip ips
              (h, remember-none i ip seen s) m)
            (sym q ∙ s) (rw (h, e) refl)
    ]
  ]
]

-- At most one entry in use for each inode
abbrev pub IsUnique : List Inode → Type 0
IsUnique ips =
    (i j : ℕ) (x y : Inode)
    → get_elem? ips i ≡ some x
    → get_elem? ips j ≡ some y
    → 0 < x.ref
    → 0 < y.ref
    → x.dev ≡ y.dev
    → x.inum ≡ y.inum
    → i ≡ j

-- No entry in use is for the inode.
abbrev pub IsAbsent : (dev inum : ℕ) → List Inode → Type 0
IsAbsent dev inum ips =
    (k : ℕ) (ip : Inode) → get_elem? ips k ≡ some ip → 0 < ip.ref → ip.dev ≡ dev → ip.inum ≢ inum

pub data Got (dev inum : ℕ) (ips : List Inode) : Type 0 where
  panicked :
      iget dev inum ips ≡ none
      → ((k : ℕ) (ip : Inode) → get_elem? ips k ≡ some ip → 0 < ip.ref)
      → IsAbsent dev inum ips
      → Got dev inum ips
  held :
      (i : ℕ) (old : Inode) (ips' : List Inode)
      → iget dev inum ips ≡ some (i, ips')
      → get_elem? ips i ≡ some old
      → 0 < old.ref
      → old.dev ≡ dev
      → old.inum ≡ inum
      → get_elem? ips' i ≡ some (record old { ref = old.ref + 1 })
      → ((j : ℕ) → i ≢ j → get_elem? ips' j ≡ get_elem? ips j)
      → IsUnique ips'
      → Got dev inum ips
  fresh :
      (i : ℕ) (old : Inode) (ips' : List Inode)
      → iget dev inum ips ≡ some (i, ips')
      → get_elem? ips i ≡ some old
      → old.ref ≡ 0
      → IsAbsent dev inum ips
      → get_elem? ips' i ≡ some (record old { dev = dev; inum = inum; ref = 1; valid = false })
      → ((j : ℕ) → i ≢ j → get_elem? ips' j ≡ get_elem? ips j)
      → IsUnique ips'
      → Got dev inum ips

module _ (g : Inode → Inode) where
  get_elem?-change_self :
      (ips : List Inode) (i : ℕ) {x : Inode}
      → get_elem? ips i ≡ some x
      → get_elem? (change g i ips) i ≡ some (g x)
  get_elem?-change_self [] i h = absurd (ground (arith, h))
  get_elem?-change_self (ip ∷ ips) zero {x} h = let r : ip ≡ x = cc in ap (λ y. some (g y)) r
  get_elem?-change_self (ip ∷ ips) (suc i) {x} h = get_elem?-change_self ips i {x = x} h

  get_elem?-change_ne :
      (ips : List Inode) (i j : ℕ) → i ≢ j → get_elem? (change g i ips) j ≡ get_elem? ips j
  get_elem?-change_ne [] i j h = refl
  get_elem?-change_ne (ip ∷ ips) zero zero h = absurd (h refl)
  get_elem?-change_ne (ip ∷ ips) zero (suc j) h = refl
  get_elem?-change_ne (ip ∷ ips) (suc i) zero h = refl
  get_elem?-change_ne (ip ∷ ips) (suc i) (suc j) h = get_elem?-change_ne ips i j (λ e. h (ap suc e))

module _ (g : Inode → Inode) (ips : List Inode) (unique : IsUnique ips) (i : ℕ) (old : Inode)
    (at : get_elem? ips i ≡ some old)
    (alone : (j : ℕ) (y : Inode)
      → j ≢ i
      → get_elem? ips j ≡ some y
      → 0 < y.ref
      → y.dev ≡ (g old).dev
      → y.inum ≢ (g old).inum) where
  -- Another entry against the changed one
  against :
      (j : ℕ) (x y : Inode)
      → j ≢ i
      → get_elem? (change g i ips) i ≡ some x
      → get_elem? (change g i ips) j ≡ some y
      → 0 < y.ref
      → y.dev ≡ x.dev
      → y.inum ≢ x.inum
  against j x y apart p q r d n =
      let here : g old ≡ x =
        let both = sym (get_elem?-change_self g ips i {x = old} at) ∙ p in cc in
      let there = sym (get_elem?-change_ne g ips i j (λ e. apart (sym e))) ∙ q in
      alone j y apart there r (d ∙ ap (λ (z : Inode). z.dev) (sym here))
        (n ∙ ap (λ (z : Inode). z.inum) (sym here))

  change-IsUnique : IsUnique (change g i ips)
  change-IsUnique k j x y p q r s d n = elim (Bool-cases (k == i)) [
    | inl a ↦
        let same_k : k ≡ i = ground (arith, a) in
        elim (Bool-cases (j == i)) [
          | inl b ↦ ground (arith, a, b)
          | inr b ↦ absurd (
              against j x y (ground (arith, b))
                (subst (λ z. get_elem? (change g i ips) z ≡ some x) same_k p) q s (sym d) (sym n))
        ]
    | inr a ↦ elim (Bool-cases (j == i)) [
      | inl b ↦
          let same_j : j ≡ i = ground (arith, b) in
          absurd (
            against k y x (ground (arith, a))
              (subst (λ z. get_elem? (change g i ips) z ≡ some y) same_j q) p r d n)
      | inr b ↦
          unique k j x y
            (sym (get_elem?-change_ne g ips i k (λ e. absurd (ground (arith, a, e)))) ∙ p)
            (sym (get_elem?-change_ne g ips i j (λ e. absurd (ground (arith, b, e)))) ∙ q) r s d n
    ]
  ]

iget-cached :
    (dev inum k : ℕ) (ips : List Inode)
    → find_inode ips 0 none dev inum ≡ cached k
    → iget dev inum ips ≡ some (k, change add_ref k ips)
unfolding iget
iget-cached dev inum k ips e = rw (iget, e) refl

iget-empty :
    (dev inum k : ℕ) (ips : List Inode)
    → find_inode ips 0 none dev inum ≡ empty (some k)
    → iget dev inum ips ≡ some (k, change (recycled dev inum) k ips)
unfolding iget
iget-empty dev inum k ips e = rw (iget, e) refl

iget-panic :
    (dev inum : ℕ) (ips : List Inode)
    → find_inode ips 0 none dev inum ≡ empty none
    → iget dev inum ips ≡ none
unfolding iget
iget-panic dev inum ips e = rw (iget, e) refl

is_inode-true :
    (dev inum : ℕ) (ip : Inode)
    → 0 < ip.ref
    → ip.dev ≡ dev
    → ip.inum ≡ inum
    → is_inode dev inum ip ≡ true
is_inode-true dev inum ip r d n = ground (arith, r, d, n)

unused-IsAbsent :
    (dev inum : ℕ) (ips : List Inode)
    → ((k : ℕ) (ip : Inode) → get_elem? ips k ≡ some ip → is_inode dev inum ip ≡ false)
    → IsAbsent dev inum ips
unused-IsAbsent dev inum ips m k ip e r d n =
    let bad = sym (m k ip e) ∙ is_inode-true dev inum ip r d n in absurd (ground (arith, bad))

-- `iget` on a table with at most one entry in use for each inode: it panics only if every entry is
-- in use for another inode. Otherwise it returns the entry of the inode with one reference more,
-- or, if the inode has none, an entry that was not in use, for the inode, with one reference and
-- not valid. No other entry changes, and the table still has at most one entry for each inode.
pub iget-Got : (dev inum : ℕ) (ips : List Inode) → IsUnique ips → Got dev inum ips
iget-Got dev inum ips unique = elim (find_inode-Found ips 0 none dev inum) [
  | hit k old e at h ↦
      let place : k + 0 ≡ k = omega arith in
      held k old (change add_ref k ips) (iget-cached dev inum k ips (e ∙ ap cached place)) at
        (ground (arith, h)) (ground (arith, h)) (ground (arith, h))
        (get_elem?-change_self add_ref ips k {x = old} at) (get_elem?-change_ne add_ref ips k)
        (change-IsUnique add_ref ips unique k old at
          (λ j y apart q r d n. apart (unique j k y old q at r (ground (arith, h)) d n)))
  | miss m s seen e ↦ absurd (ground (arith, seen))
  | miss_free m k old e at z ↦
      let place : k + 0 ≡ k = omega arith in
      fresh k old (change (recycled dev inum) k ips)
        (iget-empty dev inum k ips (e ∙ ap (λ n. empty (some n)) place)) at z
        (unused-IsAbsent dev inum ips m)
        (get_elem?-change_self (recycled dev inum) ips k {x = old} at)
        (get_elem?-change_ne (recycled dev inum) ips k)
        (change-IsUnique (recycled dev inum) ips unique k old at (λ j y apart q r d n.
          let bad = sym (m j y q) ∙ is_inode-true dev inum y r d n in absurd (ground (arith, bad))))
  | miss_full m s e ↦
      panicked (iget-panic dev inum ips e) (λ k ip q. (m k ip q).1)
        (unused-IsAbsent dev inum ips (λ k ip q. (m k ip q).0))
]
