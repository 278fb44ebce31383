-- ===== src/Console/Tokens.antt =====
-- engine/cvar/Console.cpp, `TokenizeLine`: the quote-aware tokenizer. The position in the line is
-- the rest of the line, and a view into `storage` is the text that it shows.
pub mod Laws
use voxhammer.Base.{
  leb, length, zero, [], suc, ◌&&◌, ◌||◌, List, false, if◌then◌else◌, ◌==◌, ◌∷◌, Bool, Text, ℕ,
}

-- `std::isspace` in the "C" locale.
abbrev pub is_space : ℕ → Bool
is_space c = c == 32 || (leb 9 c && leb c 13)

unfoldable pub skip_space : Text → Text
skip_space [] = []
skip_space (c ∷ s) = if is_space c then skip_space s else c ∷ s

-- `line[i] == '/' && i + 1 < n && line[i + 1] == '/'`
abbrev pub at_comment : Text → Bool
at_comment [] = false
at_comment (c ∷ []) = false
at_comment (c ∷ d ∷ s) = c == b'/' && d == b'/'

-- The token up to the closing quote, and the rest after it.
unfoldable pub take_quoted : Text → Text × Text
take_quoted [] = ([], [])
take_quoted (c ∷ s) =
    let (token, rest) = take_quoted s in if c == b'"' then ([], s) else (c ∷ token, rest)

-- The token up to a space or a comment, and the rest from there.
unfoldable pub take_word : Text → Text × Text
take_word [] = ([], [])
take_word (c ∷ s) =
    let (token, rest) = take_word s in
    if is_space c
    then ([], c ∷ s)
    else if at_comment (c ∷ s)
    then ([], c ∷ s)
    else (c ∷ token, rest)

-- The token that begins with the character `c`.
abbrev pub next_token : ℕ → Text → Text × Text
next_token c s = if c == b'"' then take_quoted s else take_word (c ∷ s)

-- One round after the spaces, with the loop to go on with.
unfoldable pub tokens_from : (Text → List Text) → Text → List Text
tokens_from go [] = []
tokens_from go (c ∷ s) =
    let more = go (next_token c s).1 in if at_comment (c ∷ s) then [] else (next_token c s).0 ∷ more

-- The outer loop, on fuel.
unfoldable pub tokens : ℕ → Text → List Text
unfolding tokens_from
tokens zero s = []
tokens (suc fuel) s = tokens_from (tokens fuel) (skip_space s)

-- `TokenizeLine`; each round takes a character at least.
unfoldable pub tokenize_line : Text → List Text
tokenize_line line = tokens (suc (length line)) line
