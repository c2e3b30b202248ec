-- ===== src/User/Grep/Language.antt =====
-- What a pattern of user/grep.c means: a sequence of items, and the words that it stands for.
use system_call_enhancement.Base.{
  ℕ, ◌==◌, if◌then◌else◌, Bool, true, false, List, [], ◌∷◌, ◌++◌, ◌≡◌,
}
use system_call_enhancement.User.Grep.{accepts}

-- One character that c accepts; any number of them; or the end of the line.
pub data Item : Type 0 where
  one : ℕ → Item
  many : ℕ → Item
  end : Item

unfoldable pub items : List ℕ → List Item
items [] = []
items (c ∷ []) = if c == b'$' then end ∷ [] else one c ∷ []
items (c ∷ d ∷ re) =
    let rest = items (d ∷ re) in
    let behind = items re in if d == b'*' then many c ∷ behind else one c ∷ rest

-- The items match a prefix of the text.
pub data Matches : List Item → List ℕ → Type 0 where
  nothing : {text : List ℕ} → Matches [] text
  char :
      {c t : ℕ} {is : List Item} {text : List ℕ}
      → accepts c t ≡ true
      → Matches is text
      → Matches (one c ∷ is) (t ∷ text)
  stop : {c : ℕ} {is : List Item} {text : List ℕ} → Matches is text → Matches (many c ∷ is) text
  more :
      {c t : ℕ} {is : List Item} {text : List ℕ}
      → accepts c t ≡ true
      → Matches (many c ∷ is) text
      → Matches (many c ∷ is) (t ∷ text)
  at_end : Matches (end ∷ []) []

abbrev pub is_anchored : List ℕ → Bool
is_anchored [] = false
is_anchored (c ∷ re) = c == b'^'

abbrev pub body : List ℕ → List ℕ
body [] = []
body (c ∷ re) = if c == b'^' then re else c ∷ re

-- Some place of the line matches the pattern; a pattern that starts with ^, the start of the line.
pub record Found (re text : List ℕ) : Type 0 where
  pub before : List ℕ
  pub after : List ℕ
  pub split : text ≡ before ++ after
  pub at_start : is_anchored re ≡ true → before ≡ []
  pub matches : Matches (items (body re)) after
