-- ===== src/Kernel/Namex/Components.antt =====
-- The elements of a path, as the loop of `namex` of kernel/fs.c takes them off, and as the parts
-- between its slashes.
use system_call_enhancement.Base.{
  ℕ, ◌≤◌, ◌<◌, if◌then◌else◌, Bool, true, false, List, [], ◌∷◌, length, take, map, none, some, ◌≡◌,
  refl, arith, ap, sym, subst, ◌∙◌, Bool-cases, ◌⊎◌, inl, inr,
}
use system_call_enhancement.Kernel.Namex.{
  dir_siz, is_slash, skip_slashes, element, behind_element, skipelem, is_empty,
}

-- The parts between slashes, the empty ones included; `current` is the part at the start.
unfoldable pub parts : List ℕ → (List ℕ × List (List ℕ))
parts [] = ([], [])
parts (c ∷ path) =
    let (current, others) = parts path in
    if is_slash c then ([], current ∷ others) else (c ∷ current, others)

abbrev pub nonempty : List (List ℕ) → List (List ℕ)
nonempty [] = []
nonempty ([] ∷ ps) = nonempty ps
nonempty ((c ∷ p) ∷ ps) = (c ∷ p) ∷ nonempty ps

-- The nonempty parts, each cut to `DIRSIZ` bytes.
abbrev pub components : List ℕ → List (List ℕ)
components path = map (take dir_siz) (nonempty ((parts path).0 ∷ (parts path).1))

skip_slashes_none :
    (c : ℕ) (path : List ℕ) → is_slash c ≡ false → skip_slashes (c ∷ path) ≡ c ∷ path
unfolding skip_slashes
skip_slashes_none c path e = rw (skip_slashes, e) refl

components-skip_slashes : (path : List ℕ) → components (skip_slashes path) ≡ components path
unfolding skip_slashes parts
components-skip_slashes [] = refl
components-skip_slashes (c ∷ path) = elim (Bool-cases (is_slash c)) [
  | inl e ↦ rw e (components-skip_slashes path)
  | inr e ↦ ap components (skip_slashes_none c path e)
]

parts-element : (path : List ℕ) → (parts path).0 ≡ element path
unfolding parts element
parts-element [] = refl
parts-element (c ∷ path) = elim (Bool-cases (is_slash c)) [
  | inl e ↦ rw e refl
  | inr e ↦ rw e (ap (λ s. c ∷ s) (parts-element path))
]

-- Behind the first part stand those of what `skipelem` leaves.
parts-behind_element :
    (path : List ℕ)
    → nonempty ((parts (behind_element path)).0 ∷ (parts (behind_element path)).1)
      ≡ nonempty (parts path).1
unfolding parts behind_element
parts-behind_element [] = refl
parts-behind_element (c ∷ path) = elim (Bool-cases (is_slash c)) [
  | inl e ↦ rw e (rw e refl)
  | inr e ↦ rw e (parts-behind_element path)
]

-- The path that `skipelem` starts with
length-skip_slashes : (path : List ℕ) → length (skip_slashes path) ≤ length path
unfolding skip_slashes
length-skip_slashes [] = omega arith
length-skip_slashes (c ∷ path) = elim (Bool-cases (is_slash c)) [
  | inl e ↦ rw e (omega (arith, length-skip_slashes path))
  | inr e ↦ rw e (omega arith)
]

length-behind_element : (path : List ℕ) → length (behind_element path) ≤ length path
unfolding behind_element
length-behind_element [] = omega arith
length-behind_element (c ∷ path) = elim (Bool-cases (is_slash c)) [
  | inl e ↦ rw e (omega arith)
  | inr e ↦ rw e (omega (arith, length-behind_element path))
]

skip_slashes_head :
    (path : List ℕ) {c : ℕ} {s : List ℕ} → skip_slashes path ≡ c ∷ s → is_slash c ≡ false
unfolding skip_slashes
skip_slashes_head [] e = absurd cc
skip_slashes_head (d ∷ path) {c} {s} e =
    let rest = skip_slashes_head path {c = c} {s = s} in
    elim (Bool-cases (is_slash d)) [
      | inl f ↦ let e₁ : skip_slashes path ≡ c ∷ s = rw f at e in rest e₁
      | inr f ↦
          let e₁ : d ∷ path ≡ c ∷ s = rw f at e in
          let same : d ≡ c = cc in ap is_slash (sym same) ∙ f
    ]

List-cases : (xs : List ℕ) → (xs ≡ []) ⊎ ((c : ℕ) × (s : List ℕ) × (xs ≡ c ∷ s))
List-cases [] = inl refl
List-cases (c ∷ s) = inr (c, s, refl)

abbrev pub is_nil {ℓ} : {A : Type ℓ} → List A → Bool
is_nil [] = true
is_nil (x ∷ xs) = false

-- A path without slashes at its start has a component unless it is empty.
is_empty-skip_slashes :
    (path : List ℕ) → is_empty (skip_slashes path) ≡ is_nil (components (skip_slashes path))
unfolding skip_slashes parts
is_empty-skip_slashes [] = refl
is_empty-skip_slashes (c ∷ path) = elim (Bool-cases (is_slash c)) [
  | inl e ↦ rw e (is_empty-skip_slashes path)
  | inr e ↦ rw e (rw e refl)
]

-- What one call of `skipelem` does to the components.
pub data Skipped (path : List ℕ) : Type 0 where
  at_end : skipelem path ≡ none → components path ≡ [] → Skipped path
  one_off :
      (name rest : List ℕ)
      → skipelem path ≡ some (name, rest)
      → components path ≡ name ∷ components rest
      → length rest < length path
      → is_empty rest ≡ is_nil (components rest)
      → Skipped path

components-cons :
    (c : ℕ) (s : List ℕ)
    → is_slash c ≡ false
    → components (c ∷ s) ≡ take dir_siz (element (c ∷ s)) ∷ components (behind_element (c ∷ s))
unfolding parts element behind_element
components-cons c s e =
    rw (e, parts-element s)
      (ap (λ ps. take dir_siz (c ∷ element s) ∷ map (take dir_siz) ps)
        (sym (parts-behind_element s)))

shorter :
    (path : List ℕ) {c : ℕ} {s : List ℕ}
    → skip_slashes path ≡ c ∷ s
    → is_slash c ≡ false
    → length (skip_slashes (behind_element (c ∷ s))) < length path
unfolding behind_element
shorter path {c} {s} e h =
    let first : length (c ∷ s) ≤ length path =
      subst (λ xs. length xs ≤ length path) e (length-skip_slashes path) in
    rw h (omega (arith, first, length-skip_slashes (behind_element s), length-behind_element s))

pub skipelem-Skipped : (path : List ℕ) → Skipped path
unfolding skipelem parts
skipelem-Skipped path = elim (List-cases (skip_slashes path)) [
  | inl e ↦ at_end (rw (skipelem, e) refl) (sym (components-skip_slashes path) ∙ ap components e)
  | inr (c, s, e) ↦
      let head = skip_slashes_head path {c = c} {s = s} e in
      one_off (take dir_siz (element (c ∷ s))) (skip_slashes (behind_element (c ∷ s)))
        (rw (skipelem, e) refl)
        (sym (components-skip_slashes path)
          ∙ ap components e
          ∙ components-cons c s head
          ∙ ap (λ ps. take dir_siz (element (c ∷ s)) ∷ ps)
              (sym (components-skip_slashes (behind_element (c ∷ s)))))
        (shorter path e head) (is_empty-skip_slashes (behind_element (c ∷ s)))
]
