-- ===== src/User/Grep/Reads.antt =====
-- The loop of user/grep.c over the reads of a file.
use system_call_enhancement.Base.{
  ℕ, zero, suc, ◌+◌, ◌-◌, ◌≤◌, ◌<◌, ◌==◌, if◌then◌else◌, false, List, [], ◌∷◌, ◌++◌, length, take,
  drop, some, All, ◌≡◌, refl, arith, Bool-cases, inl, inr, ap, ◌∙◌, sym, length-append,
  append_assoc,
}
use system_call_enhancement.User.Grep.{re_match, scan_lines, buf_size, read_size, grep}

-- The lines of a text that a newline ends, behind the start of its first line.
unfoldable pub lines : (start text : List ℕ) → List (List ℕ)
lines start [] = []
lines start (c ∷ text) =
    let next = lines [] text in
    let longer = lines (start ++ (c ∷ [])) text in if c == b'\n' then start ∷ next else longer

-- Those that match, each with its newline.
unfoldable pub selected : List ℕ → List (List ℕ) → List ℕ
selected pattern [] = []
selected pattern (l ∷ ls) =
    if re_match pattern l then l ++ (b'\n' ∷ selected pattern ls) else selected pattern ls

-- A text without NUL
abbrev pub IsText : List ℕ → Type 0
IsText = All (λ c. (c == 0) ≡ false)

IsText-take : (n : ℕ) (xs : List ℕ) → IsText xs → IsText (take n xs)
IsText-take zero xs t = tt
IsText-take (suc n) [] t = tt
IsText-take (suc n) (x ∷ xs) (h, t) = (h, IsText-take n xs t)

IsText-drop : (n : ℕ) (xs : List ℕ) → IsText xs → IsText (drop n xs)
IsText-drop zero xs t = t
IsText-drop (suc n) [] t = tt
IsText-drop (suc n) (x ∷ xs) (h, t) = IsText-drop n xs t

scan_lines-selected :
    (pattern line text : List ℕ)
    → IsText text
    → (scan_lines pattern line text).0 ≡ selected pattern (lines line text)
unfolding scan_lines selected lines
scan_lines-selected pattern line [] t = refl
scan_lines-selected pattern line (c ∷ text) (z, t) = elim (Bool-cases (c == b'\n')) [
  | inl e ↦ rw (e, scan_lines-selected pattern [] text t) refl
  | inr e ↦ rw (e, z, scan_lines-selected pattern (line ++ (c ∷ [])) text t) refl
]

IsText-append : (xs ys : List ℕ) → IsText xs → IsText ys → IsText (xs ++ ys)
IsText-append [] ys t u = u
IsText-append (x ∷ xs) ys (h, t) u = (h, IsText-append xs ys t u)

-- A scan in two parts.
scan_lines-append :
    (pattern line xs ys : List ℕ)
    → IsText xs
    → scan_lines pattern line (xs ++ ys) ≡ (
      (scan_lines pattern line xs).0 ++ (scan_lines pattern (scan_lines pattern line xs).1 ys).0,
      (scan_lines pattern (scan_lines pattern line xs).1 ys).1,
    )
unfolding scan_lines
scan_lines-append pattern line [] ys t = refl
scan_lines-append pattern line (c ∷ xs) ys (z, t) = elim (Bool-cases (c == b'\n')) [
  | inl e ↦ elim (Bool-cases (re_match pattern line)) [
    | inl m ↦ rw (e, m, scan_lines-append pattern [] xs ys t, append_assoc) refl
    | inr m ↦ rw (e, m, scan_lines-append pattern [] xs ys t)
  ]
  | inr e ↦ rw (e, z, scan_lines-append pattern (line ++ (c ∷ [])) xs ys t)
]

-- Every line fits into the buffer, where the first has k characters already.
abbrev pub IsShort : ℕ → List ℕ → Type 0
IsShort k [] = Unit
IsShort k (c ∷ text) =
    let k' : ℕ = if c == b'\n' then 0 else suc k in (k' + 1 < buf_size) × IsShort k' text

-- The part of a line that a scan leaves: it has no newline, and fits.
record Left (pattern line rest : List ℕ) : Type 0 where
  whole : scan_lines pattern [] line ≡ ([], line)
  text : IsText line
  more : IsText rest
  fits : length line + 1 < buf_size
  short : IsShort (length line) rest

Left-longer :
    (pattern line : List ℕ) (c : ℕ) (rest : List ℕ)
    → (c == b'\n') ≡ false
    → Left pattern line (c ∷ rest)
    → Left pattern (line ++ (c ∷ [])) rest
unfolding scan_lines
Left-longer pattern line c rest e l =
    let one_more : length (line ++ (c ∷ [])) ≡ suc (length line) =
      omega (arith, length-append line (c ∷ [])) in
    let tail = rw e at l.short in
    record {
      whole = rw (scan_lines-append pattern [] line (c ∷ []) l.text, l.whole, e, l.more.0) refl;
      text = IsText-append line (c ∷ []) l.text (l.more.0, tt);
      more = l.more.1;
      fits = rw one_more tail.0;
      short = rw one_more tail.1;
    }

scan_lines-Left :
    (pattern line chunk rest : List ℕ)
    → Left pattern line (chunk ++ rest)
    → Left pattern (scan_lines pattern line chunk).1 rest
unfolding scan_lines
scan_lines-Left pattern line [] rest l = l
scan_lines-Left pattern line (c ∷ chunk) rest l = elim (Bool-cases (c == b'\n')) [
  | inl e ↦ rw e (
      scan_lines-Left pattern [] chunk rest (record {
        whole = refl;
        text = tt;
        more = l.more.1;
        fits = omega arith;
        short = (rw e at l.short).1;
      }))
  | inr e ↦
      rw (e, l.more.0)
        (scan_lines-Left pattern (line ++ (c ∷ [])) chunk rest
          (Left-longer pattern line c (chunk ++ rest) e l))
]

take-drop : (n : ℕ) (xs : List ℕ) → take n xs ++ drop n xs ≡ xs
take-drop zero xs = refl
take-drop (suc n) [] = refl
take-drop (suc n) (x ∷ xs) = ap (◌∷◌ x) (take-drop n xs)

length-drop : (n : ℕ) (xs : List ℕ) → n ≤ length xs → length (drop n xs) + n ≡ length xs
length-drop zero xs h = omega arith
length-drop (suc n) [] h = omega arith
length-drop (suc n) (x ∷ xs) h = omega (arith, length-drop n xs (omega arith))

-- A turn of the loop that reads n bytes.
scan_lines-read :
    (pattern line xs : List ℕ) (n : ℕ)
    → Left pattern line xs
    → scan_lines pattern [] (line ++ take n xs) ≡ scan_lines pattern line (take n xs)
scan_lines-read pattern line xs n l =
    rw (scan_lines-append pattern [] line (take n xs) l.text, l.whole) refl

selected-read :
    (pattern line xs : List ℕ) (n : ℕ)
    → IsText xs
    → (scan_lines pattern line (take n xs)).0
        ++ selected pattern (lines (scan_lines pattern line (take n xs)).1 (drop n xs))
      ≡ selected pattern (lines line xs)
selected-read pattern line xs n t =
    let left = (scan_lines pattern line (take n xs)).1 in
    ap (λ r. (scan_lines pattern line (take n xs)).0 ++ r)
      (sym (scan_lines-selected pattern left (drop n xs) (IsText-drop n xs t)))
    ∙ sym (
        ap (λ r. r.0) (scan_lines-append pattern line (take n xs) (drop n xs) (IsText-take n xs t)))
    ∙ ap (λ ys. (scan_lines pattern line ys).0) (take-drop n xs)
    ∙ scan_lines-selected pattern line xs t

-- The loop with the start of a line in the buffer.
grep-selected :
    (fuel : ℕ) (pattern : List ℕ) (reads : ℕ → ℕ) (input line : List ℕ)
    → Left pattern line input
    → length input < fuel
    → grep fuel pattern reads input line ≡ some (selected pattern (lines line input))
unfolding grep selected lines
grep-selected zero pattern reads input line l h = absurd (omega arith)
grep-selected (suc fuel) pattern reads [] line l h =
    let e : read_size (reads fuel) (buf_size - length line - 1) [] ≡ 0 = omega arith in rw e refl
grep-selected (suc fuel) pattern reads (c ∷ input) line l h =
    rw
      (
        some_read,
        scan_lines-read pattern line (c ∷ input) n l,
        grep-selected fuel pattern reads (drop n (c ∷ input)) left next fewer,
      )
      (ap (λ s. some (s.0 ++ selected pattern (lines left (drop n (c ∷ input)))))
          (scan_lines-read pattern line (c ∷ input) n l)
        ∙ ap some (selected-read pattern line (c ∷ input) n l.more))
  where
    n : ℕ
    n = read_size (reads fuel) (buf_size - length line - 1) (c ∷ input)

    some_read : (n == 0) ≡ false
    some_read = ground (arith, l.fits)

    left : List ℕ
    left = (scan_lines pattern line (take n (c ∷ input))).1

    next : Left pattern left (drop n (c ∷ input))
    next =
        scan_lines-Left pattern line (take n (c ∷ input)) (drop n (c ∷ input))
          (rw (take-drop n (c ∷ input)) l)

    fewer : length (drop n (c ∷ input)) < fuel
    fewer = omega (arith, length-drop n (c ∷ input) (omega arith), l.fits, h)

-- If the file has no NUL and each of its lines, with its newline, is shorter than the buffer, `grep` ends and writes
-- the lines that match, in their order, each with its newline, however `read` cuts the file up. A
-- last line without a newline is not written.
pub grep_lem :
    (fuel : ℕ) (pattern : List ℕ) (reads : ℕ → ℕ) (input : List ℕ)
    → IsText input
    → IsShort 0 input
    → length input < fuel
    → grep fuel pattern reads input [] ≡ some (selected pattern (lines [] input))
unfolding scan_lines
grep_lem fuel pattern reads input text short enough =
    grep-selected fuel pattern reads input []
      (record { whole = refl; text = tt; more = text; fits = omega arith; short = short }) enough
