-- ===== src/Kernel/File/Free.antt =====
-- Files of kernel/file.c that are taken by `filealloc` and given back by `fileclose`.
use system_call_enhancement.Base.{
  ℕ, zero, suc, ◌+◌, ◌<◌, ◌==◌, if◌then◌else◌, List, [], ◌∷◌, none, some, get_elem?, set, All, ◌≡◌,
  refl, arith, ap, ap₂, sym, ◌∙◌, Bool-cases, inl, inr,
}
use system_call_enhancement.Kernel.File.{
  fd_none, File, State, find_free, set_ref, close_last, fileclose,
}

-- A file that nobody refers to has no type.
pub data IsFree (f : File) : Type 0 where
  in_use : 0 < f.ref → IsFree f
  free : f.ref ≡ 0 → f.type_ ≡ fd_none → IsFree f

-- The number of free files
abbrev pub free_count : List File → ℕ
free_count [] = 0
free_count (f ∷ fs) = (if f.ref == 0 then 1 else 0) + free_count fs

-- What `find_free` finds.
pub data Searched (fs : List File) : Type 0 where
  nothing : find_free fs ≡ none → free_count fs ≡ 0 → Searched fs
  something :
      (i : ℕ) (f : File)
      → find_free fs ≡ some i
      → get_elem? fs i ≡ some f
      → f.ref ≡ 0
      → free_count fs ≡ suc (free_count (set_ref fs i 1))
      → Searched fs

pub find_free-Searched : (fs : List File) → Searched fs
unfolding find_free
find_free-Searched [] = nothing refl refl
find_free-Searched (f ∷ fs) =
    let rest = find_free-Searched fs in
    elim (Bool-cases (f.ref == 0)) [
      | inl e ↦ something 0 f (rw (find_free, e) refl) refl (ground (arith, e)) (rw e (omega arith))
      | inr e ↦ elim rest [
        | nothing h c ↦ nothing (rw (find_free, e, h) refl) (rw e (omega (arith, c)))
        | something i g h k r c ↦
            something (suc i) g (rw (find_free, e, h) refl) k r (rw e (omega (arith, c)))
      ]
    ]

given_back : (g : File) → g.ref ≡ 0 → g.type_ ≡ fd_none → record g { ref = 0; type_ = fd_none } ≡ g
given_back g q t = ap₂ (λ r y. record g { ref = r; type_ = y }) (sym q) (sym t)

-- Taking a reference and giving it up again.
set-set_ref :
    (fs : List File) (i : ℕ) {f : File}
    → get_elem? fs i ≡ some f
    → All IsFree fs
    → f.ref ≡ 0
    → set (set_ref fs i 1) i (record f { ref = 0; type_ = fd_none }) ≡ fs
set-set_ref [] i e v r = absurd (ground (arith, e))
set-set_ref (g ∷ fs) zero {f} e (h, v) r = elim h [
  | in_use q ↦ let same : g ≡ f = cc in absurd (omega (arith, q, r, ap (λ (x : File). x.ref) same))
  | free q t ↦
      let same : f ≡ g = cc in
      ap (λ (x : File). record x { ref = 0; type_ = fd_none } ∷ fs) same
      ∙ ap (λ x. x ∷ fs) (given_back g q t)
]
set-set_ref (g ∷ fs) (suc i) {f} e (h, v) r = ap (λ xs. g ∷ xs) (set-set_ref fs i {f = f} e v r)

pub get_elem?-set_ref :
    (fs : List File) (i : ℕ) {f : File}
    → get_elem? fs i ≡ some f
    → get_elem? (set_ref fs i 1) i ≡ some (record f { ref = 1 })
get_elem?-set_ref [] i e = absurd (ground (arith, e))
get_elem?-set_ref (g ∷ fs) zero {f} e =
    let same : g ≡ f = cc in ap (λ (x : File). some (record x { ref = 1 })) same
get_elem?-set_ref (g ∷ fs) (suc i) {f} e = get_elem?-set_ref fs i {f = f} e

-- A file that is free once another has been taken was free before.
pub free_before :
    (fs : List File) (i j : ℕ) {g : File}
    → get_elem? (set_ref fs i 1) j ≡ some g
    → g.ref ≡ 0
    → get_elem? fs j ≡ some g
free_before [] i j e r = e
free_before (f ∷ fs) zero zero {g} e r =
    let same : record f { ref = 1 } ≡ g = cc in
    absurd (omega (arith, r, ap (λ (x : File). x.ref) same))
free_before (f ∷ fs) zero (suc j) e r = e
free_before (f ∷ fs) (suc i) zero e r = e
free_before (f ∷ fs) (suc i) (suc j) {g} e r = free_before fs i j {g = g} e r

pub All-set_ref : (fs : List File) (i : ℕ) → All IsFree fs → All IsFree (set_ref fs i 1)
All-set_ref [] i v = tt
All-set_ref (f ∷ fs) zero (h, v) = (in_use (omega arith), v)
All-set_ref (f ∷ fs) (suc i) (h, v) = (h, All-set_ref fs i v)

type_of_free :
    (fs : List File) (i : ℕ) {f : File}
    → get_elem? fs i ≡ some f
    → All IsFree fs
    → f.ref ≡ 0
    → f.type_ ≡ fd_none
type_of_free [] i e v r = absurd (ground (arith, e))
type_of_free (g ∷ fs) zero {f} e (h, v) r =
    let same : g ≡ f = cc in
    elim h [
      | in_use q ↦ absurd (omega (arith, q, r, ap (λ (x : File). x.ref) same))
      | free q t ↦ ap (λ (x : File). x.type_) (sym same) ∙ t
    ]
type_of_free (g ∷ fs) (suc i) {f} e (h, v) r = type_of_free fs i {f = f} e v r

close_last_none : (ff : File) (s : State) → ff.type_ ≡ fd_none → close_last ff s ≡ s
unfolding close_last
close_last_none ff s t = rw (close_last, t) refl

-- `fileclose` of a file that `filealloc` has just taken.
pub fileclose_taken :
    (s : State) (fs : List File) (i : ℕ) {f : File}
    → s.files ≡ set_ref fs i 1
    → get_elem? fs i ≡ some f
    → f.ref ≡ 0
    → All IsFree fs
    → fileclose i s ≡ some (record s { files = fs })
unfolding fileclose close_last
fileclose_taken s fs i {f} e g r v =
    let found : get_elem? s.files i ≡ some (record f { ref = 1 }) =
      ap (λ xs. get_elem? xs i) e ∙ get_elem?-set_ref fs i {f = f} g in
    let back : File = record f { ref = 0; type_ = fd_none } in
    let files : set s.files i back ≡ fs =
      ap (λ xs. set xs i back) e ∙ set-set_ref fs i {f = f} g v r in
    rw (fileclose, found)
      (ap (λ x. some x)
        (close_last_none (record f { ref = 1 }) (record s { files = set s.files i back })
            (type_of_free fs i {f = f} g v r)
          ∙ ap (λ xs. record s { files = xs }) files))
