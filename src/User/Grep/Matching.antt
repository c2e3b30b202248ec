-- ===== src/User/Grep/Matching.antt =====
-- The matcher of user/grep.c decides the language of its patterns.
use system_call_enhancement.Base.{
  ℕ, ◌==◌, Bool, true, false, ◌&&◌, ◌||◌, List, [], ◌∷◌, ◌++◌, ◌≡◌, ◌↔◌, refl, arith, Bool-cases,
  inl, inr, ap, ◌∙◌, ◌⊎◌,
}
use system_call_enhancement.User.Grep.{
  matchstar, is_end, match_one, matchhere, match_from, re_match,
}
use system_call_enhancement.User.Grep.Language.{
  Item, one, many, end, items, Matches, nothing, char, stop, more, at_end, Found,
}

or-cases : (a b : Bool) → (a || b) ≡ true → (a ≡ true) ⊎ ((a ≡ false) × (b ≡ true))
or-cases true b h = inl refl
or-cases false b h = inr (refl, h)

module _ (here : List ℕ → Bool) (is : List Item) where
  matchstar_sound :
      ((text : List ℕ) → here text ≡ true → Matches is text)
      → (c : ℕ) (text : List ℕ) → matchstar here c text ≡ true
      → Matches (many c ∷ is) text
  unfolding matchstar
  matchstar_sound ok c [] h = stop (ok [] h)
  matchstar_sound ok c (t ∷ text) h =
      elim (or-cases (here (t ∷ text)) ((t == c || c == b'.') && matchstar here c text) h) [
        | inl now ↦ stop (ok (t ∷ text) now)
        | inr (_, later) ↦
            more (ground (arith, later)) (matchstar_sound ok c text (ground (arith, later)))
      ]

  matchstar_complete :
      ((text : List ℕ) → Matches is text → here text ≡ true)
      → (c : ℕ) (text : List ℕ) → Matches (many c ∷ is) text
      → matchstar here c text ≡ true
  unfolding matchstar
  matchstar_complete ok c [] (stop m) = ok [] m
  matchstar_complete ok c (t ∷ text) (stop m) = ground (arith, ok (t ∷ text) m)
  matchstar_complete ok c (t ∷ text) (more a m) = ground (arith, a, matchstar_complete ok c text m)

  match_one_sound :
      ((text : List ℕ) → here text ≡ true → Matches is text)
      → (c : ℕ) (text : List ℕ) → match_one here c text ≡ true
      → Matches (one c ∷ is) text
  unfolding match_one
  match_one_sound ok c [] h = absurd (cc)
  match_one_sound ok c (t ∷ text) h = char (ground (arith, h)) (ok text (ground (arith, h)))

  match_one_complete :
      ((text : List ℕ) → Matches is text → here text ≡ true)
      → (c : ℕ) (text : List ℕ) → Matches (one c ∷ is) text
      → match_one here c text ≡ true
  unfolding match_one
  match_one_complete ok c [] m = elim m [ ]
  match_one_complete ok c (t ∷ text) (char a m) = ground (arith, a, ok text m)

is_end_sound : (text : List ℕ) → is_end text ≡ true → Matches (end ∷ []) text
unfolding is_end
is_end_sound [] h = at_end
is_end_sound (t ∷ text) h = absurd (cc)

matchhere_sound : (re text : List ℕ) → matchhere re text ≡ true → Matches (items re) text
unfolding matchhere items
matchhere_sound [] text h = nothing
matchhere_sound (c ∷ []) text h = elim (Bool-cases (c == b'$')) [
  | inl e ↦ rw e (is_end_sound text (rw e at h))
  | inr e ↦ rw e (match_one_sound (λ rest. true) [] (λ rest _. nothing) c text (rw e at h))
]
matchhere_sound (c ∷ d ∷ re) text h = elim (Bool-cases (d == b'*')) [
  | inl e ↦ rw e (matchstar_sound (matchhere re) (items re) (matchhere_sound re) c text (rw e at h))
  | inr e ↦ rw e (
      match_one_sound (matchhere (d ∷ re)) (items (d ∷ re)) (matchhere_sound (d ∷ re)) c text
        (rw e at h))
]

is_end_complete : (text : List ℕ) → Matches (end ∷ []) text → is_end text ≡ true
unfolding is_end
is_end_complete [] m = refl
is_end_complete (t ∷ text) m = elim m [ ]

matchhere_complete : (re text : List ℕ) → Matches (items re) text → matchhere re text ≡ true
unfolding matchhere items
matchhere_complete [] text m = refl
matchhere_complete (c ∷ []) text m = elim (Bool-cases (c == b'$')) [
  | inl e ↦ rw e (is_end_complete text (rw e at m))
  | inr e ↦ rw e (match_one_complete (λ rest. true) [] (λ rest _. refl) c text (rw e at m))
]
matchhere_complete (c ∷ d ∷ re) text m = elim (Bool-cases (d == b'*')) [
  | inl e ↦
      rw e (matchstar_complete (matchhere re) (items re) (matchhere_complete re) c text (rw e at m))
  | inr e ↦ rw e (
      match_one_complete (matchhere (d ∷ re)) (items (d ∷ re)) (matchhere_complete (d ∷ re)) c text
        (rw e at m))
]

-- Some suffix of the text matches.
record Somewhere (re text : List ℕ) : Type 0 where
  before : List ℕ
  after : List ℕ
  split : text ≡ before ++ after
  matches : Matches (items re) after

match_from_sound : (re text : List ℕ) → match_from re text ≡ true → Somewhere re text
unfolding match_from
match_from_sound re [] h = record {
  before = [];
  after = [];
  split = refl;
  matches = matchhere_sound re [] h;
}
match_from_sound re (t ∷ text) h =
    elim (or-cases (matchhere re (t ∷ text)) (match_from re text) h) [
      | inl now ↦ record {
        before = [];
        after = t ∷ text;
        split = refl;
        matches = matchhere_sound re (t ∷ text) now;
      }
      | inr (_, later) ↦
          let s = match_from_sound re text later in
          record {
            before = t ∷ s.before;
            after = s.after;
            split = ap (◌∷◌ t) s.split;
            matches = s.matches;
          }
    ]

match_from_complete :
    (re before after : List ℕ) → Matches (items re) after → match_from re (before ++ after) ≡ true
unfolding match_from
match_from_complete re [] [] m = matchhere_complete re [] m
match_from_complete re [] (t ∷ text) m = ground (arith, matchhere_complete re (t ∷ text) m)
match_from_complete re (t ∷ before) after m = ground (arith, match_from_complete re before after m)

re_match-sound : (re text : List ℕ) → re_match re text ≡ true → Found re text
unfolding re_match
re_match-sound [] text h =
    let s = match_from_sound [] text h in
    record {
      before = s.before;
      after = s.after;
      split = s.split;
      at_start = λ e. absurd (cc);
      matches = s.matches;
    }
re_match-sound (c ∷ re) text h = elim (Bool-cases (c == b'^')) [
  | inl e ↦ record {
    before = [];
    after = text;
    split = refl;
    at_start = λ _. refl;
    matches = rw e (matchhere_sound re text (rw e at h));
  }
  | inr e ↦
      let s = match_from_sound (c ∷ re) text (rw e at h) in
      record {
        before = s.before;
        after = s.after;
        split = s.split;
        at_start = λ a. absurd (cc);
        matches = rw e s.matches;
      }
]

re_match_complete : (re text : List ℕ) → Found re text → re_match re text ≡ true
unfolding re_match
re_match_complete [] text f = rw (f.split) (match_from_complete [] f.before f.after f.matches)
re_match_complete (c ∷ re) text f = elim (Bool-cases (c == b'^')) [
  | inl e ↦
      let whole : text ≡ f.after = f.split ∙ ap (λ b. b ++ f.after) (f.at_start e) in
      rw (e, whole) (matchhere_complete re f.after (rw e at f.matches))
  | inr e ↦ rw (e, f.split) (match_from_complete (c ∷ re) f.before f.after (rw e at f.matches))
]

-- `match` answers 1 exactly if some place of the line, or its start for a pattern that begins with
-- ^, matches the pattern read as a sequence of items.
pub re_match_lem : (re text : List ℕ) → (re_match re text ≡ true) ↔ Found re text
re_match_lem re text = (re_match-sound re text, re_match_complete re text)
