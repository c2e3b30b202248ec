-- ===== src/User/Shell.antt =====
-- The parser of user/sh.c. A string is the list of its bytes before the NUL, and `*ps` is what is
-- left of it. A word is the text between the two pointers that `gettoken` sets, which is what
-- `nulterminate` makes of it. `malloc` always gives memory, as the code assumes.
pub mod Consumed
pub mod Ends
mod Tests
use system_call_enhancement.Base.{
  ℕ, zero, suc, ◌+◌, ◌==◌, leb, if◌then◌else◌, Bool, true, false, not, ◌&&◌, ◌||◌, List, [], ◌∷◌,
  ◌++◌, length,
}

abbrev pub is_space : ℕ → Bool
is_space c = c == b' ' || (c == 9 || (c == 13 || (c == 10 || c == 11)))

-- `strchr(toks, c)`
abbrev pub one_of : List ℕ → ℕ → Bool
one_of [] c = false
one_of (t ∷ ts) c = t == c || one_of ts c

-- `symbols`
abbrev pub symbols : List ℕ
symbols = b'<' ∷ b'|' ∷ b'>' ∷ b'&' ∷ b';' ∷ b'(' ∷ b')' ∷ []

-- The loops over white space, and over the bytes of a word
unfoldable pub skip : List ℕ → List ℕ
skip [] = []
skip (c ∷ s) = if is_space c then skip s else c ∷ s

unfoldable pub word_of : List ℕ → List ℕ
word_of [] = []
word_of (c ∷ s) = if is_space c || one_of symbols c then [] else c ∷ word_of s

unfoldable pub behind_word : List ℕ → List ℕ
behind_word [] = []
behind_word (c ∷ s) = if is_space c || one_of symbols c then c ∷ s else behind_word s

-- What `gettoken` returns: 0, the byte of a symbol, '+', or 'a'.
pub data Token : Type 0 where
  end_ : Token
  symbol : ℕ → Token
  append : Token
  word : List ℕ → Token

-- The switch of `gettoken` behind the white space, before the white space that follows
unfoldable pub token_at : List ℕ → Token × List ℕ
token_at [] = (end_, [])
token_at (c ∷ []) = if one_of symbols c then (symbol c, []) else (word (c ∷ []), [])
token_at (c ∷ d ∷ s) =
    if c == b'>' && d == b'>'
    then (append, s)
    else if one_of symbols c
    then (symbol c, d ∷ s)
    else (word (c ∷ word_of (d ∷ s)), behind_word (d ∷ s))

unfoldable pub gettoken : List ℕ → Token × List ℕ
gettoken s = let (t, rest) = token_at (skip s) in (t, skip rest)

-- `peek`: the answer, and the string behind white space
unfoldable pub peek : List ℕ → (toks : List ℕ) → Bool
peek s toks = elim (skip s) [ [] ↦ false | c ∷ rest ↦ one_of toks c ]

-- The modes of `redircmd`: O_RDONLY, O_WRONLY|O_CREATE|O_TRUNC, and O_WRONLY|O_CREATE
pub data Mode : Type 0 where
  reading truncating appending : Mode

pub data Cmd : Type 0 where
  exec : List (List ℕ) → Cmd
  redir : Cmd → (file : List ℕ) → Mode → (fd : ℕ) → Cmd
  pipe : Cmd → Cmd → Cmd
  list : Cmd → Cmd → Cmd
  back : Cmd → Cmd

-- A call of the parser: a command and what is left, a call of `panic`, or no fuel left
pub data Parsed {ℓ} (A : Type ℓ) : Type ℓ where
  parsed : A → List ℕ → Parsed A
  syntax : Parsed A
  stuck : Parsed A

abbrev pub then_ {ℓ κ} : {A : Type ℓ} {B : Type κ} → Parsed A → (A → List ℕ → Parsed B) → Parsed B
then_ (parsed a s) f = f a s
then_ syntax f = syntax
then_ stuck f = stuck

-- A redirection, and `redircmd` on a command
pub data Redir : Type 0 where
  redirection : (file : List ℕ) → Mode → (fd : ℕ) → Redir

abbrev pub wrap : Cmd → List Redir → Cmd
wrap c [] = c
wrap c (redirection file mode fd ∷ rs) = wrap (redir c file mode fd) rs

abbrev pub redir_of : Token → List ℕ → Redir
redir_of append file = redirection file appending 1
redir_of (symbol c) file =
    if c == b'<' then redirection file reading 0 else redirection file truncating 1
redir_of end_ file = redirection file reading 0
redir_of (word w) file = redirection file reading 0

-- The loop of `parseredirs`: the redirections that it puts around its command, the inner one first
unfoldable pub parseredirs : (fuel : ℕ) → List Redir → List ℕ → Parsed (List Redir)
parseredirs zero rs s = stuck
parseredirs (suc fuel) rs s = elim (peek s (b'<' ∷ b'>' ∷ [])) [
  | false ↦ parsed rs (skip s)
  | true ↦
      let (tok, s₁) = gettoken s in
      let (file, s₂) = gettoken s₁ in
      elim file [
        | word w ↦ parseredirs fuel (rs ++ (redir_of tok w ∷ [])) s₂
        | end_ ↦ syntax
        | symbol c ↦ syntax
        | append ↦ syntax
      ]
]

-- `MAXARGS`
abbrev pub max_args : ℕ
max_args = 10

-- The loop of `parseexec`, with the arguments and the redirections so far
unfoldable pub parseargs : (fuel : ℕ) → List (List ℕ) → List Redir → List ℕ → Parsed Cmd
parseargs zero args rs s = stuck
parseargs (suc fuel) args rs s = elim (peek s (b'|' ∷ b')' ∷ b'&' ∷ b';' ∷ [])) [
  | true ↦ parsed (wrap (exec args) rs) (skip s)
  | false ↦
      let (tok, s₁) = gettoken s in
      elim tok [
        | end_ ↦ parsed (wrap (exec args) rs) s₁
        | symbol c ↦ syntax
        | append ↦ syntax
        | word w ↦
            if leb max_args (length args + 1)
            then syntax
            else then_ (parseredirs (suc (length s₁)) rs s₁)
                (λ rs₁ s₂. parseargs fuel (args ++ (w ∷ [])) rs₁ s₂)
      ]
]

abbrev pub Parser : Type 0
Parser = List ℕ → Parsed Cmd

unfoldable pub parseblock : (parseline : Parser) → Parser
parseblock parseline s =
    if not (peek s (b'(' ∷ []))
    then syntax
    else then_ (parseline (gettoken s).1) (λ c s₁.
      if not (peek s₁ (b')' ∷ []))
      then syntax
      else let s₂ = (gettoken s₁).1 in
        then_ (parseredirs (suc (length s₂)) [] s₂) (λ rs s₃. parsed (wrap c rs) s₃))

unfoldable pub parseexec : (parseline : Parser) → Parser
parseexec parseline s =
    if peek s (b'(' ∷ [])
    then parseblock parseline s
    else then_ (parseredirs (suc (length s)) [] s) (λ rs s₁. parseargs (suc (length s₁)) [] rs s₁)

unfoldable pub parsepipe : (parseline parsepipe_again : Parser) → Parser
parsepipe parseline parsepipe_again s = then_ (parseexec parseline s) (λ c s₁.
    if peek s₁ (b'|' ∷ [])
    then then_ (parsepipe_again (gettoken s₁).1) (λ d s₂. parsed (pipe c d) s₂)
    else parsed c (skip s₁))

-- The loop of `parseline` over '&'
unfoldable pub parseback : (fuel : ℕ) → Cmd → Parser
parseback zero c s = stuck
parseback (suc fuel) c s = elim (peek s (b'&' ∷ [])) [
  | false ↦ parsed c (skip s)
  | true ↦ parseback fuel (back c) (gettoken s).1
]

unfoldable pub parseline : (parsepipe_first parseline_again : Parser) → Parser
parseline parsepipe_first parseline_again s = then_ (parsepipe_first s) (λ c s₁.
    then_ (parseback (suc (length s₁)) c s₁) (λ c₁ s₂.
      if peek s₂ (b';' ∷ [])
      then then_ (parseline_again (gettoken s₂).1) (λ d s₃. parsed (list c₁ d) s₃)
      else parsed c₁ (skip s₂)))

-- `parseline` and `parsepipe`, which call each other, on fuel
pub record Parsers : Type 0 where
  pub line : Parser
  pub pipeline : Parser

unfoldable pub parsers : ℕ → Parsers
parsers zero = record { line = λ s. stuck; pipeline = λ s. stuck }
parsers (suc fuel) =
    let p = parsers fuel in
    record { line = parseline p.pipeline p.line; pipeline = parsepipe p.line p.pipeline }

-- `parsecmd`, which panics if something is left
unfoldable pub parsecmd : (fuel : ℕ) → List ℕ → Parsed Cmd
parsecmd fuel s =
    then_ ((parsers fuel).line s) (λ c s₁. elim (skip s₁) [ [] ↦ parsed c [] | d ∷ rest ↦ syntax ])
