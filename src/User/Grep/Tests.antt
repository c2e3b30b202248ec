-- ===== src/User/Grep/Tests.antt =====
-- Patterns and a file of three lines.
use system_call_enhancement.Base.{ℕ, List, [], ◌∷◌, some, ◌≡◌, ◌↔◌, refl, true, arith}
use system_call_enhancement.User.Grep.{
  re_match, match_from, matchhere, match_one, matchstar, is_end, grep,
}
use system_call_enhancement.User.Grep.Language.{Found}
use system_call_enhancement.User.Grep.Matching.{re_match_lem}
use system_call_enhancement.User.Grep.Reads.{IsText, lines, selected, grep_lem}

-- "a.*c$"
abbrev pattern : List ℕ
pattern = b'a' ∷ b'.' ∷ b'*' ∷ b'c' ∷ b'$' ∷ []

-- "xabbc"
abbrev line : List ℕ
line = b'x' ∷ b'a' ∷ b'b' ∷ b'b' ∷ b'c' ∷ []

re_match_lem_example : (re_match pattern line ≡ true) ↔ Found pattern line
re_match_lem_example = re_match_lem pattern line

pattern_found : re_match pattern line ≡ true
unfolding re_match match_from matchhere match_one matchstar is_end
pattern_found = refl

-- "b", "ac" and "c", the last without a newline
abbrev file : List ℕ
file = b'b' ∷ b'\n' ∷ b'a' ∷ b'c' ∷ b'\n' ∷ b'c' ∷ []

file-IsText : IsText file
file-IsText = (refl, (refl, (refl, (refl, (refl, (refl, tt))))))

grep_lem_example : grep 7 pattern (λ i. i) file [] ≡ some (selected pattern (lines [] file))
grep_lem_example = grep_lem 7 pattern (λ i. i) file file-IsText (omega arith) (omega arith)
