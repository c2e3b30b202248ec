-- ===== src/User/Grep.antt =====
-- user/grep.c. A string is the list of its characters before the NUL, which are not 0.
pub mod Language
pub mod Matching
pub mod Reads
mod Tests
use system_call_enhancement.Base.{
  ℕ, zero, suc, ◌+◌, ◌-◌, ◌==◌, if◌then◌else◌, Bool, true, false, ◌&&◌, ◌||◌, List, [], ◌∷◌, ◌++◌,
  length, min, take, drop, Option, none, some,
}

-- `text[0] == c` or the pattern's character c is a dot
abbrev pub accepts : ℕ → ℕ → Bool
accepts c t = c == b'.' || c == t

-- `matchstar`, for what `matchhere` answers for the rest of the pattern.
unfoldable pub matchstar : (List ℕ → Bool) → ℕ → List ℕ → Bool
matchstar here c [] = here []
matchstar here c (t ∷ text) =
    let rest = matchstar here c text in here (t ∷ text) || (t == c || c == b'.') && rest

unfoldable pub is_end : List ℕ → Bool
is_end [] = true
is_end (t ∷ text) = false

-- The last `if` of `matchhere`, for what `matchhere` answers for the pattern behind c.
unfoldable pub match_one : (List ℕ → Bool) → ℕ → List ℕ → Bool
match_one here c [] = false
match_one here c (t ∷ text) = if accepts c t then here text else false

unfoldable pub matchhere : (re text : List ℕ) → Bool
matchhere [] text = true
matchhere (c ∷ []) text = if c == b'$' then is_end text else match_one (λ rest. true) c text
matchhere (c ∷ d ∷ re) text =
    let one = match_one (matchhere (d ∷ re)) c text in
    let star = matchstar (matchhere re) c text in if d == b'*' then star else one

-- The `do` loop of `match`.
unfoldable pub match_from : (re text : List ℕ) → Bool
match_from re [] = matchhere re []
match_from re (t ∷ text) = let rest = match_from re text in matchhere re (t ∷ text) || rest

unfoldable pub re_match : (re text : List ℕ) → Bool
re_match [] text = match_from [] text
re_match (c ∷ re) text = if c == b'^' then matchhere re text else match_from (c ∷ re) text

-- The inner `while` of `grep` on the text behind `line`, the part of a line that is read already:
-- what is written, and the part of the buffer that `memmove` keeps. `strchr` stops at a NUL.
unfoldable pub scan_lines : (pattern line text : List ℕ) → List ℕ × List ℕ
scan_lines pattern line [] = ([], line)
scan_lines pattern line (c ∷ text) =
    let (out, left) = scan_lines pattern [] text in
    let longer = scan_lines pattern (line ++ (c ∷ [])) text in
    if c == b'\n'
    then (if re_match pattern line then line ++ (b'\n' ∷ out) else out, left)
    else if c == 0
    then ([], line ++ (c ∷ text))
    else longer

-- `sizeof(buf)`
abbrev pub buf_size : ℕ
buf_size = 1024

-- What a `read` with room for `space` bytes gives: all it may, or as few as `reads` says, but at
-- least one if there is one and room for it.
abbrev pub read_size : (wanted space : ℕ) → List ℕ → ℕ
read_size wanted space input = min (suc wanted) (min space (length input))

-- `grep` on a file of which `input` is unread, with `buf` in the buffer, on fuel: what it writes.
-- `reads` says how much each of the calls of `read` gives.
unfoldable pub grep :
    (fuel : ℕ) → (pattern : List ℕ) → (reads : ℕ → ℕ) → (input buf : List ℕ) → Option (List ℕ)
grep zero pattern reads input buf = none
grep (suc fuel) pattern reads input buf =
    let n = read_size (reads fuel) (buf_size - length buf - 1) input in
    let (out, left) = scan_lines pattern [] (buf ++ take n input) in
    let rest = grep fuel pattern reads (drop n input) left in
    if n == 0 then some [] else elim rest [ none ↦ none | some more ↦ some (out ++ more) ]
