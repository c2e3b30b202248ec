-- ===== src/Kernel/File/Pipealloc.antt =====
-- `pipealloc` of kernel/pipe.c gives back what it took when it fails.
use system_call_enhancement.Base.{
  ℕ, zero, suc, ◌==◌, ltb, if◌then◌else◌, Bool, true, false, ◌||◌, List, [], ◌∷◌, none, some,
  get_elem?, All, ◌≡◌, ◌≢◌, ◌⊎◌, refl, arith, ap, sym, ◌∙◌, Bool-cases, inl, inr,
}
use system_call_enhancement.Kernel.Pipe.{pipe_init}
use system_call_enhancement.Kernel.File.{
  File, State, find_free, set_ref, filealloc, pipe_end, modify, pipealloc,
}
use system_call_enhancement.Kernel.File.Free.{
  IsFree, free_count, find_free-Searched, get_elem?-set_ref, free_before, All-set_ref,
  fileclose_taken, nothing, something,
}

set_ref_comm :
    (fs : List File) (i j : ℕ) → set_ref (set_ref fs i 1) j 1 ≡ set_ref (set_ref fs j 1) i 1
set_ref_comm [] i j = refl
set_ref_comm (f ∷ fs) zero zero = refl
set_ref_comm (f ∷ fs) zero (suc j) = refl
set_ref_comm (f ∷ fs) (suc i) zero = refl
set_ref_comm (f ∷ fs) (suc i) (suc j) = ap (λ xs. f ∷ xs) (set_ref_comm fs i j)

pub get_elem?-set_ref_ne :
    (fs : List File) (i j : ℕ) → i ≢ j → get_elem? (set_ref fs i 1) j ≡ get_elem? fs j
get_elem?-set_ref_ne [] i j h = refl
get_elem?-set_ref_ne (f ∷ fs) zero zero h = absurd (h refl)
get_elem?-set_ref_ne (f ∷ fs) zero (suc j) h = refl
get_elem?-set_ref_ne (f ∷ fs) (suc i) zero h = refl
get_elem?-set_ref_ne (f ∷ fs) (suc i) (suc j) h = get_elem?-set_ref_ne fs i j (λ e. h (ap suc e))

-- A file that was just taken is not free.
taken-ne :
    (fs : List File) (i j : ℕ) {f g : File}
    → get_elem? fs i ≡ some f
    → get_elem? (set_ref fs i 1) j ≡ some g
    → g.ref ≡ 0
    → i ≢ j
taken-ne fs i j {f} {g} e k r q =
    let here : some (record f { ref = 1 }) ≡ some g =
      sym (get_elem?-set_ref fs i {f = f} e) ∙ ap (get_elem? (set_ref fs i 1)) q ∙ k in
    let same : record f { ref = 1 } ≡ g = cc in omega (arith, r, ap (λ (x : File). x.ref) same)

abbrev pub no_page : List ℕ → Bool
no_page [] = true
no_page (pi ∷ pages) = false

-- How `pipealloc` ends: it changes nothing, for want of two files or of a page, or it gives two
-- files that were free and a page.
pub data Ended (junk : ℕ → ℕ) (s : State) : Type 0 where
  gave_up :
      (ltb (free_count s.files) 2 || no_page s.pages) ≡ true
      → pipealloc junk s ≡ some (none, s)
      → Ended junk s
  made :
      (f0 f1 pi : ℕ) (pages : List ℕ) (g0 g1 : File)
      → get_elem? s.files f0 ≡ some g0
      → g0.ref ≡ 0
      → get_elem? s.files f1 ≡ some g1
      → g1.ref ≡ 0
      → f0 ≢ f1
      → s.pages ≡ pi ∷ pages
      → pipealloc junk s
        ≡ some (
          some (f0, f1),
          record s {
            files =
                modify
                  (pipe_end false pi)
                  f1
                  (modify (pipe_end true pi) f0 (set_ref (set_ref s.files f0 1) f1 1));
            pages = pages;
            pipes = λ a. if a == pi then pipe_init junk else s.pipes a;
          },
        )
      → Ended junk s

filealloc-some :
    (s : State) {i : ℕ}
    → find_free s.files ≡ some i
    → filealloc s ≡ some (i, record s { files = set_ref s.files i 1 })
unfolding filealloc
filealloc-some s e = rw (filealloc, e) refl

filealloc-none : (s : State) → find_free s.files ≡ none → filealloc s ≡ none
unfolding filealloc
filealloc-none s e = rw (filealloc, e) refl

no_page_test : (s : State) → s.pages ≡ [] → (ltb (free_count s.files) 2 || no_page s.pages) ≡ true
no_page_test s p = elim (Bool-cases (ltb (free_count s.files) 2)) [
  | inl e ↦ rw e refl
  | inr e ↦ rw (e, p) refl
]

pipealloc-none :
    (junk : ℕ → ℕ) (s : State) → find_free s.files ≡ none → pipealloc junk s ≡ some (none, s)
unfolding pipealloc
pipealloc-none junk s e = rw (pipealloc, filealloc-none s e) refl

module _ (junk : ℕ → ℕ) (s : State) (valid : All IsFree s.files) where
  abbrev first : ℕ → State
  first f0 = record s { files = set_ref s.files f0 1 }

  abbrev both : ℕ → ℕ → State
  both f0 f1 = record s { files = set_ref (set_ref s.files f0 1) f1 1 }

  no_second :
      (f0 : ℕ) (g0 : File)
      → find_free s.files ≡ some f0
      → get_elem? s.files f0 ≡ some g0
      → g0.ref ≡ 0
      → find_free (set_ref s.files f0 1) ≡ none
      → pipealloc junk s ≡ some (none, s)
  unfolding pipealloc
  no_second f0 g0 e k r n =
      rw
        (
          pipealloc,
          filealloc-some s {i = f0} e,
          filealloc-none (first f0) n,
          fileclose_taken (first f0) s.files f0 {f = g0} refl k r valid,
        )
        refl

  no_page_left :
      (f0 f1 : ℕ) (g0 g1 : File)
      → find_free s.files ≡ some f0
      → get_elem? s.files f0 ≡ some g0
      → g0.ref ≡ 0
      → find_free (set_ref s.files f0 1) ≡ some f1
      → get_elem? (set_ref s.files f0 1) f1 ≡ some g1
      → g1.ref ≡ 0
      → s.pages ≡ []
      → pipealloc junk s ≡ some (none, s)
  unfolding pipealloc
  no_page_left f0 f1 g0 g1 e k r e₁ k₁ r₁ p =
      let apart = taken-ne s.files f0 f1 {f = g0} {g = g1} k k₁ r₁ in
      let k₀ : get_elem? (set_ref s.files f1 1) f0 ≡ some g0 =
        get_elem?-set_ref_ne s.files f1 f0 (λ q. apart (sym q)) ∙ k in
      rw
        (
          pipealloc,
          filealloc-some s {i = f0} e,
          filealloc-some (first f0) {i = f1} e₁,
          p,
          fileclose_taken (both f0 f1) (set_ref s.files f1 1) f0 {f = g0}
              (set_ref_comm s.files f0 f1) k₀ r (All-set_ref s.files f1 valid),
          fileclose_taken (first f1) s.files f1 {f = g1} refl
              (free_before s.files f0 f1 {g = g1} k₁ r₁) r₁ valid,
        )
        (ap (λ ps. some (none, record s { pages = ps })) p)

  both_taken :
      (f0 f1 pi : ℕ) (pages : List ℕ)
      → find_free s.files ≡ some f0
      → find_free (set_ref s.files f0 1) ≡ some f1
      → s.pages ≡ pi ∷ pages
      → pipealloc junk s
        ≡ some (
          some (f0, f1),
          record s {
            files =
                modify
                  (pipe_end false pi)
                  f1
                  (modify (pipe_end true pi) f0 (set_ref (set_ref s.files f0 1) f1 1));
            pages = pages;
            pipes = λ a. if a == pi then pipe_init junk else s.pipes a;
          },
        )
  unfolding pipealloc
  both_taken f0 f1 pi pages e e₁ p =
      rw (pipealloc, filealloc-some s {i = f0} e, filealloc-some (first f0) {i = f1} e₁, p) refl

List-cases : (ps : List ℕ) → (ps ≡ []) ⊎ ((p : ℕ) × (rest : List ℕ) × (ps ≡ p ∷ rest))
List-cases [] = inl refl
List-cases (p ∷ rest) = inr (p, rest, refl)

-- It ends in one of the two ways and never panics.
pub pipealloc-Ended : (junk : ℕ → ℕ) (s : State) → All IsFree s.files → Ended junk s
pipealloc-Ended junk s valid = elim (find_free-Searched s.files) [
  | nothing e c ↦ gave_up (ground (arith, c)) (pipealloc-none junk s e)
  | something f0 g0 e k r c ↦ elim (find_free-Searched (set_ref s.files f0 1)) [
    | nothing e₁ c₁ ↦ gave_up (ground (arith, c, c₁)) (no_second junk s valid f0 g0 e k r e₁)
    | something f1 g1 e₁ k₁ r₁ c₁ ↦ elim (List-cases s.pages) [
      | inl p ↦ gave_up (no_page_test s p) (no_page_left junk s valid f0 f1 g0 g1 e k r e₁ k₁ r₁ p)
      | inr (pi, pages, p) ↦
          made f0 f1 pi pages g0 g1 k r (free_before s.files f0 f1 {g = g1} k₁ r₁) r₁
            (taken-ne s.files f0 f1 {f = g0} {g = g1} k k₁ r₁) p
            (both_taken junk s valid f0 f1 pi pages e e₁ p)
    ]
  ]
]
