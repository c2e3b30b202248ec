-- ===== src/User/Shell/Tests.antt =====
-- Lines that the parser of user/sh.c reads.
use system_call_enhancement.Base.{[], ◌∷◌, ◌≡◌, refl, arith}
use system_call_enhancement.User.Shell.{
  exec, redir, pipe, back, appending, parsed, syntax, skip, word_of, behind_word, token_at,
  gettoken, peek, parseredirs, parseargs, parseblock, parseexec, parsepipe, parseback, parseline,
  parsers, parsecmd,
}
use system_call_enhancement.User.Shell.Consumed.{Ends}
use system_call_enhancement.User.Shell.Ends.{parsecmd-Ends}

-- "a >>b|c&"
parse_line :
    parsecmd 20 (b'a' ∷ b' ' ∷ b'>' ∷ b'>' ∷ b'b' ∷ b'|' ∷ b'c' ∷ b'&' ∷ [])
    ≡ parsed
        (back (
          pipe (redir (exec ((b'a' ∷ []) ∷ [])) (b'b' ∷ []) appending 1) (exec ((b'c' ∷ []) ∷ []))))
        []
unfolding parsecmd parsers parseline parsepipe parseexec parseblock parseargs parseredirs parseback
    gettoken token_at peek skip word_of behind_word
parse_line = refl

-- "(a"
parse_open : parsecmd 6 (b'(' ∷ b'a' ∷ []) ≡ syntax
unfolding parsecmd parsers parseline parsepipe parseexec parseblock parseargs parseredirs parseback
    gettoken token_at peek skip word_of behind_word
parse_open = refl

parsecmd-Ends_example : Ends 0 (parsecmd 6 (b'(' ∷ b'a' ∷ []))
parsecmd-Ends_example = parsecmd-Ends 6 (b'(' ∷ b'a' ∷ []) (omega arith)
