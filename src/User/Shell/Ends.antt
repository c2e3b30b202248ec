-- ===== src/User/Shell/Ends.antt =====
-- The parser of user/sh.c ends, with fuel for twice the length of its string.
use system_call_enhancement.Base.{
  ℕ, zero, suc, ◌+◌, ◌*◌, leb, if◌then◌else◌, not, ◌≤◌, ◌<◌, List, [], ◌∷◌, ◌++◌, length, ◌≡◌, ◌⊎◌,
  refl, arith, Bool-cases, inl, inr,
}
use system_call_enhancement.User.Shell.{
  skip, Token, end_, symbol, append, word, gettoken, peek, Cmd, parsed, syntax, then_, Redir,
  parseredirs, max_args, parseargs, Parser, parseblock, parseexec, parsepipe, parseback, parseline,
  parsers, parsecmd, wrap, exec, back, pipe, list,
}
use system_call_enhancement.User.Shell.Consumed.{
  skip_le, gettoken-Taken, gettoken-peek, gettoken_le, Ends, then_-Ends, parseredirs-Ends, nothing,
  some_bytes, done, failed,
}

-- One argument of a command, with what the turns behind it do
next_arg :
    (t : Token) (fuel n : ℕ) (args : List (List ℕ)) (rs : List Redir) (s : List ℕ)
    → length s ≤ n
    → ((w : List ℕ) (rs₁ : List Redir) (s₁ : List ℕ)
        → length s₁ ≤ length s
        → Ends n (parseargs fuel (args ++ (w ∷ [])) rs₁ s₁))
    → Ends n (elim t [
      | end_ ↦ parsed (wrap (exec args) rs) s
      | symbol c ↦ syntax
      | append ↦ syntax
      | word w ↦
          if leb max_args (length args + 1)
          then syntax
          else then_
              (parseredirs (suc (length s)) rs s)
              (λ rs₁ s₁. parseargs fuel (args ++ (w ∷ [])) rs₁ s₁)
    ])
next_arg end_ fuel n args rs s le rec = done (wrap (exec args) rs) s refl le
next_arg (symbol c) fuel n args rs s le rec = failed refl
next_arg append fuel n args rs s le rec = failed refl
next_arg (word w) fuel n args rs s le rec = elim (Bool-cases (leb max_args (length args + 1))) [
  | inl e ↦ rw e (failed refl)
  | inr e ↦ rw e (
      then_-Ends (length s) n (parseredirs (suc (length s)) rs s)
        (λ rs₁ s₁. parseargs fuel (args ++ (w ∷ [])) rs₁ s₁)
        (parseredirs-Ends (suc (length s)) (length s) rs s (omega arith) (omega arith)) (rec w))
]

parseargs-Ends :
    (fuel n : ℕ) (args : List (List ℕ)) (rs : List Redir) (s : List ℕ)
    → length s < fuel
    → length s ≤ n
    → Ends n (parseargs fuel args rs s)
unfolding parseargs
parseargs-Ends zero n args rs s h le = absurd (omega arith)
parseargs-Ends (suc fuel) n args rs s h le =
    elim (Bool-cases (peek s (b'|' ∷ b')' ∷ b'&' ∷ b';' ∷ []))) [
      | inl e ↦
          done (wrap (exec args) rs) (skip s) (rw (parseargs, e) refl)
            (omega (arith, le, skip_le s))
      | inr e ↦ elim (gettoken-Taken s) [
        | nothing z t small ↦
            done (wrap (exec args) rs) (gettoken s).1 (rw (parseargs, e, t) refl)
              (omega (arith, small, le))
        | some_bytes lt ↦
            rw (parseargs, e)
              (next_arg (gettoken s).0 fuel n args rs (gettoken s).1 (omega (arith, lt, le))
                (λ w rs₁ s₁ q.
                  parseargs-Ends fuel n (args ++ (w ∷ [])) rs₁ s₁ (omega (arith, q, lt, h))
                    (omega (arith, q, lt, le))))
      ]
    ]

parseback-Ends :
    (fuel n : ℕ) (c : Cmd) (s : List ℕ)
    → length s < fuel
    → length s ≤ n
    → Ends n (parseback fuel c s)
unfolding parseback
parseback-Ends zero n c s h le = absurd (omega arith)
parseback-Ends (suc fuel) n c s h le = elim (Bool-cases (peek s (b'&' ∷ []))) [
  | inr e ↦ done c (skip s) (rw (parseback, e) refl) (omega (arith, le, skip_le s))
  | inl e ↦
      let lt = gettoken-peek s (b'&' ∷ []) e in
      rw (parseback, e)
        (parseback-Ends fuel n (back c) (gettoken s).1 (omega (arith, lt, h))
          (omega (arith, lt, le)))
]

-- The parser of a line ends on every shorter string.
abbrev EndsBelow : ℕ → Parser → Type 0
EndsBelow n p = (s : List ℕ) → length s < n → Ends (length s) (p s)

parseblock-Ends :
    (line : Parser) (s : List ℕ) → EndsBelow (length s) line → Ends (length s) (parseblock line s)
unfolding parseblock
parseblock-Ends line s below = elim (Bool-cases (peek s (b'(' ∷ []))) [
  | inr e ↦ failed (rw (parseblock, e) refl)
  | inl e ↦
      let lt = gettoken-peek s (b'(' ∷ []) e in
      rw (parseblock, e)
        (then_-Ends (length (gettoken s).1) (length s) (line (gettoken s).1)
          (λ c s₁.
            if not (peek s₁ (b')' ∷ []))
            then syntax
            else then_ (parseredirs (suc (length (gettoken s₁).1)) [] (gettoken s₁).1)
                (λ rs s₃. parsed (wrap c rs) s₃))
          (below (gettoken s).1 lt)
          (λ c s₁ le. elim (Bool-cases (peek s₁ (b')' ∷ []))) [
            | inr f ↦ rw f (failed refl)
            | inl f ↦
                let less = gettoken_le s₁ in
                rw f (
                  then_-Ends (length s) (length s)
                    (parseredirs (suc (length (gettoken s₁).1)) [] (gettoken s₁).1)
                    (λ rs s₃. parsed (wrap c rs) s₃)
                    (parseredirs-Ends (suc (length (gettoken s₁).1)) (length s) [] (gettoken s₁).1
                      (omega arith) (omega (arith, less, le, lt)))
                    (λ rs s₃ q. done (wrap c rs) s₃ refl q))
          ]))
]

parseexec-Ends :
    (line : Parser) (s : List ℕ) → EndsBelow (length s) line → Ends (length s) (parseexec line s)
unfolding parseexec
parseexec-Ends line s below = elim (Bool-cases (peek s (b'(' ∷ []))) [
  | inl e ↦ rw (parseexec, e) (parseblock-Ends line s below)
  | inr e ↦
      rw (parseexec, e)
        (then_-Ends (length s) (length s) (parseredirs (suc (length s)) [] s)
          (λ rs s₁. parseargs (suc (length s₁)) [] rs s₁)
          (parseredirs-Ends (suc (length s)) (length s) [] s (omega arith) (omega arith))
          (λ rs s₁ q. parseargs-Ends (suc (length s₁)) (length s) [] rs s₁ (omega arith) q))
]

parsepipe-Ends :
    (line more : Parser) (s : List ℕ)
    → EndsBelow (length s) line
    → EndsBelow (length s) more
    → Ends (length s) (parsepipe line more s)
unfolding parsepipe
parsepipe-Ends line more s below again =
    then_-Ends (length s) (length s) (parseexec line s)
      (λ c s₁.
        if peek s₁ (b'|' ∷ [])
        then then_ (more (gettoken s₁).1) (λ d s₂. parsed (pipe c d) s₂)
        else parsed c (skip s₁))
      (parseexec-Ends line s below)
      (λ c s₁ le. elim (Bool-cases (peek s₁ (b'|' ∷ []))) [
        | inr f ↦ rw f (done c (skip s₁) refl (omega (arith, le, skip_le s₁)))
        | inl f ↦
            let lt = gettoken-peek s₁ (b'|' ∷ []) f in
            rw f (
              then_-Ends (length (gettoken s₁).1) (length s) (more (gettoken s₁).1)
                (λ d s₂. parsed (pipe c d) s₂) (again (gettoken s₁).1 (omega (arith, lt, le)))
                (λ d s₂ q. done (pipe c d) s₂ refl (omega (arith, q, lt, le))))
      ])

parseline-Ends :
    (first more : Parser) (s : List ℕ)
    → Ends (length s) (first s)
    → EndsBelow (length s) more
    → Ends (length s) (parseline first more s)
unfolding parseline
parseline-Ends first more s start again =
    then_-Ends (length s) (length s) (first s)
      (λ c s₁. then_ (parseback (suc (length s₁)) c s₁) (λ c₁ s₂.
        if peek s₂ (b';' ∷ [])
        then then_ (more (gettoken s₂).1) (λ d s₃. parsed (list c₁ d) s₃)
        else parsed c₁ (skip s₂)))
      start
      (λ c s₁ le.
        then_-Ends (length s) (length s) (parseback (suc (length s₁)) c s₁)
          (λ c₁ s₂.
            if peek s₂ (b';' ∷ [])
            then then_ (more (gettoken s₂).1) (λ d s₃. parsed (list c₁ d) s₃)
            else parsed c₁ (skip s₂))
          (parseback-Ends (suc (length s₁)) (length s) c s₁ (omega arith) le)
          (λ c₁ s₂ q. elim (Bool-cases (peek s₂ (b';' ∷ []))) [
            | inr f ↦ rw f (done c₁ (skip s₂) refl (omega (arith, q, skip_le s₂)))
            | inl f ↦
                let lt = gettoken-peek s₂ (b';' ∷ []) f in
                rw f (
                  then_-Ends (length (gettoken s₂).1) (length s) (more (gettoken s₂).1)
                    (λ d s₃. parsed (list c₁ d) s₃) (again (gettoken s₂).1 (omega (arith, lt, q)))
                    (λ d s₃ r. done (list c₁ d) s₃ refl (omega (arith, r, lt, q))))
          ]))

parsers-Ends :
    (fuel : ℕ)
    → ((s : List ℕ) → length s * 2 + 2 ≤ fuel → Ends (length s) ((parsers fuel).line s))
      × ((s : List ℕ) → length s * 2 + 1 ≤ fuel → Ends (length s) ((parsers fuel).pipeline s))
unfolding parsers
parsers-Ends zero = ((λ s h. absurd (omega arith)), (λ s h. absurd (omega arith)))
parsers-Ends (suc fuel) =
    let below = parsers-Ends fuel in
    (
      (λ s h.
          parseline-Ends (parsers fuel).pipeline (parsers fuel).line s (below.1 s (omega arith))
            (λ t lt. below.0 t (omega arith))),
      (λ s h.
          parsepipe-Ends (parsers fuel).line (parsers fuel).pipeline s
            (λ t lt. below.0 t (omega arith)) (λ t lt. below.1 t (omega arith))),
    )

List-cases : (s : List ℕ) → (s ≡ []) ⊎ ((c : ℕ) × (rest : List ℕ) × (s ≡ c ∷ rest))
List-cases [] = inl refl
List-cases (c ∷ rest) = inr (c, rest, refl)

-- `parsecmd` on any string, with fuel for twice its length and two calls more: it returns a command
-- for the whole string, with nothing left of it, or it panics. Every loop and every recursive call
-- of the parser ends.
pub parsecmd-Ends : (fuel : ℕ) (s : List ℕ) → length s * 2 + 2 ≤ fuel → Ends 0 (parsecmd fuel s)
unfolding parsecmd
parsecmd-Ends fuel s h =
    then_-Ends (length s) 0 ((parsers fuel).line s)
      (λ c s₁. elim (skip s₁) [ [] ↦ parsed c [] | d ∷ rest ↦ syntax ]) ((parsers-Ends fuel).0 s h)
      (λ c s₁ le. elim (List-cases (skip s₁)) [
        | inl e ↦ rw e (done c [] refl (omega arith))
        | inr (d, rest, e) ↦ rw e (failed refl)
      ])
