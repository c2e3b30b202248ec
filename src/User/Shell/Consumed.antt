-- ===== src/User/Shell/Consumed.antt =====
-- How much the tokens of user/sh.c take, and how a call of its parser ends.
use system_call_enhancement.Base.{
  ℕ, zero, suc, ◌==◌, true, false, ◌&&◌, ◌||◌, ◌≤◌, ◌<◌, List, [], ◌∷◌, ◌++◌, length, ◌≡◌, ◌⊎◌,
  refl, sym, ap, ◌∙◌, arith, Bool-cases, inl, inr, subst,
}
use system_call_enhancement.User.Shell.{
  is_space, one_of, symbols, skip, behind_word, Token, end_, symbol, append, word, token_at,
  gettoken, peek, Parsed, parsed, syntax, then_, Redir, redir_of, parseredirs,
}

pub skip_le : (s : List ℕ) → length (skip s) ≤ length s
unfolding skip
skip_le [] = omega arith
skip_le (c ∷ s) = elim (Bool-cases (is_space c)) [
  | inl h ↦ rw h (omega (arith, skip_le s))
  | inr h ↦ rw h (omega arith)
]

behind_word_le : (s : List ℕ) → length (behind_word s) ≤ length s
unfolding behind_word
behind_word_le [] = omega arith
behind_word_le (c ∷ s) = elim (Bool-cases (is_space c || one_of symbols c)) [
  | inl h ↦ rw h (omega arith)
  | inr h ↦ rw h (omega (arith, behind_word_le s))
]

token_at_lt : (c : ℕ) (s : List ℕ) → length (token_at (c ∷ s)).1 ≤ length s
unfolding token_at
token_at_lt c [] = elim (Bool-cases (one_of symbols c)) [
  | inl h ↦ rw h (omega arith)
  | inr h ↦ rw h (omega arith)
]
token_at_lt c (d ∷ s) = elim (Bool-cases (c == b'>' && d == b'>')) [
  | inl h ↦ rw h (omega arith)
  | inr h ↦ elim (Bool-cases (one_of symbols c)) [
    | inl k ↦ rw (h, k) (omega arith)
    | inr k ↦ rw (h, k) (behind_word_le (d ∷ s))
  ]
]

-- A token takes a byte at least, if there is one.
pub data Taken (s : List ℕ) : Type 0 where
  nothing : skip s ≡ [] → (gettoken s).0 ≡ end_ → length (gettoken s).1 ≤ length s → Taken s
  some_bytes : length (gettoken s).1 < length s → Taken s

pub gettoken-Taken : (s : List ℕ) → Taken s
unfolding gettoken token_at skip
gettoken-Taken s = elim (List-cases (skip s)) [
  | inl e ↦ nothing e (rw e refl) (rw e (omega arith))
  | inr (c, rest, e) ↦
      let le = skip_le s in
      let small = token_at_lt c rest in
      let behind = skip_le (token_at (c ∷ rest)).1 in
      let same = ap length e in some_bytes (rw e (omega (arith, le, small, behind, same)))
]
  where
    List-cases : (s : List ℕ) → (s ≡ []) ⊎ ((c : ℕ) × (rest : List ℕ) × (s ≡ c ∷ rest))
    List-cases [] = inl refl
    List-cases (c ∷ rest) = inr (c, rest, refl)

peek-nothing : (s toks : List ℕ) → skip s ≡ [] → peek s toks ≡ false
unfolding peek
peek-nothing s toks e = rw (peek, e) refl

pub gettoken-peek : (s toks : List ℕ) → peek s toks ≡ true → length (gettoken s).1 < length s
gettoken-peek s toks h = elim (gettoken-Taken s) [
  | some_bytes lt ↦ lt
  | nothing e t le ↦ let bad = sym (peek-nothing s toks e) ∙ h in absurd (ground (arith, bad))
]

pub gettoken_le : (s : List ℕ) → length (gettoken s).1 ≤ length s
gettoken_le s = elim (gettoken-Taken s) [ some_bytes lt ↦ omega (arith, lt) | nothing e t le ↦ le ]

-- It returns, and leaves at most n bytes, or it panics; it does not run out of fuel.
pub data Ends {ℓ} {A : Type ℓ} (n : ℕ) (r : Parsed A) : Type ℓ where
  done : (a : A) (s : List ℕ) → r ≡ parsed a s → length s ≤ n → Ends n r
  failed : r ≡ syntax → Ends n r

pub then_-Ends {ℓ κ} :
    {A : Type ℓ} {B : Type κ} (n k : ℕ) (r : Parsed A) (f : A → List ℕ → Parsed B)
    → Ends n r
    → ((a : A) (s : List ℕ) → length s ≤ n → Ends k (f a s))
    → Ends k (then_ r f)
then_-Ends n k r f (done a s e h) g = subst (λ x. Ends k (then_ x f)) (sym e) (g a s h)
then_-Ends n k r f (failed e) g = failed (ap (λ x. then_ x f) e)

-- A word, or a panic
need_word :
    {A : Type 0} (t : Token) (n : ℕ) (f : List ℕ → Parsed A)
    → ((w : List ℕ) → Ends n (f w))
    → Ends n (elim t [ word w ↦ f w | end_ ↦ syntax | symbol c ↦ syntax | append ↦ syntax ])
need_word end_ n f g = failed refl
need_word (symbol c) n f g = failed refl
need_word append n f g = failed refl
need_word (word w) n f g = g w

pub parseredirs-Ends :
    (fuel n : ℕ) (rs : List Redir) (s : List ℕ)
    → length s < fuel
    → length s ≤ n
    → Ends n (parseredirs fuel rs s)
unfolding parseredirs
parseredirs-Ends zero n rs s h le = absurd (omega arith)
parseredirs-Ends (suc fuel) n rs s h le = elim (Bool-cases (peek s (b'<' ∷ b'>' ∷ []))) [
  | inr e ↦ done rs (skip s) (rw (parseredirs, e) refl) (omega (arith, le, skip_le s))
  | inl e ↦
      let first = gettoken-peek s (b'<' ∷ b'>' ∷ []) e in
      let second = gettoken_le (gettoken s).1 in
      rw (parseredirs, e)
        (need_word (gettoken (gettoken s).1).0 n
          (λ w.
            parseredirs fuel (rs ++ (redir_of (gettoken s).0 w ∷ [])) (gettoken (gettoken s).1).1)
          (λ w.
            parseredirs-Ends fuel n (rs ++ (redir_of (gettoken s).0 w ∷ []))
              (gettoken (gettoken s).1).1 (omega (arith, first, second, h))
              (omega (arith, first, second, le))))
]
