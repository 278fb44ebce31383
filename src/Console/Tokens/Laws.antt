-- ===== src/Console/Tokens/Laws.antt =====
-- engine/cvar/Console.cpp, `TokenizeLine`: fuel, and lines of quoted words. The comment at its
-- declaration says that it stops at a newline; the code does not.
use voxhammer.Base.{
  ◌∙◌, length-append, ap, inr, inl, Bool-cases, ◌≢◌, All, List, zero, ◌++◌, refl, suc, [], arith,
  false, ◌<◌, ◌∷◌, ◌≤◌, length, ◌≡◌, Text, ℕ,
}
use voxhammer.Console.Tokens.{
  is_space, skip_space, at_comment, take_quoted, take_word, next_token, tokens_from, tokens,
  tokenize_line,
}

length-skip_space : (s : Text) → length (skip_space s) ≤ length s
unfolding skip_space
length-skip_space [] = omega arith
length-skip_space (c ∷ s) = ground (arith, length-skip_space s)

length-take_quoted : (s : Text) → length (take_quoted s).1 ≤ length s
unfolding take_quoted
length-take_quoted [] = omega arith
length-take_quoted (c ∷ s) = ground (arith, length-take_quoted s)

length-take_word : (s : Text) → length (take_word s).1 ≤ length s
unfolding take_word
length-take_word [] = omega arith
length-take_word (c ∷ s) = ground (arith, length-take_word s)

-- Where the loop goes on, it has taken a character.
length-next_token :
    (c : ℕ) (s : Text)
    → is_space c ≡ false
    → at_comment (c ∷ s) ≡ false
    → length (next_token c s).1 ≤ length s
unfolding take_word
length-next_token c s h k = ground (arith, length-take_quoted s, length-take_word s)

skip_space-head : (s : Text) (c : ℕ) (r : Text) → skip_space s ≡ c ∷ r → is_space c ≡ false
unfolding skip_space
skip_space-head [] c r e = cc
skip_space-head (d ∷ s) c r e = ground (arith, skip_space-head s c r)

tokens_from-eq :
    (go go' : Text → List Text) (n : ℕ) (s r : Text)
    → skip_space s ≡ r
    → length s ≤ n
    → ((t : Text) → length t < n → go t ≡ go' t)
    → tokens_from go r ≡ tokens_from go' r
unfolding tokens_from
tokens_from-eq go go' n s [] e b h = refl
tokens_from-eq go go' n s (c ∷ r) e b h = elim (Bool-cases (at_comment (c ∷ r))) [
  | inl k ↦ rw k
  | inr k ↦
      let shorter = length-next_token c r (skip_space-head s c r e) k in
      rw k (
        ap (λ ts. (next_token c r).0 ∷ ts)
          (h (next_token c r).1 (omega (arith, ap length e, length-skip_space s))))
]

-- With more fuel than there are characters the tokens are the same for every amount of it.
tokens_fuel : (f g : ℕ) (s : Text) → length s < f → length s < g → tokens f s ≡ tokens g s
unfolding tokens
tokens_fuel zero g s a b = absurd (omega arith)
tokens_fuel (suc f) zero s a b = absurd (omega arith)
tokens_fuel (suc f) (suc g) s a b =
    tokens_from-eq (tokens f) (tokens g) (length s) s (skip_space s) refl (omega arith)
      (λ t h. tokens_fuel f g t (omega arith) (omega arith))

-- The tokens of a line are those of the unbounded loop: each round skips the spaces, newlines among
-- them, ends at the end of the line or at a comment, and otherwise takes one token and goes on with
-- the rest of the line.
pub tokenize_line-step :
    (line : Text) → tokenize_line line ≡ tokens_from tokenize_line (skip_space line)
unfolding tokenize_line tokens
tokenize_line-step line =
    tokens_from-eq (tokens (length line)) tokenize_line (length line) line (skip_space line) refl
      (omega arith) (λ t h. tokens_fuel (length line) (suc (length t)) t h (omega arith))

-- Each token in quotes, with a space after it.
unfoldable pub quoted_line : List Text → Text
quoted_line [] = []
quoted_line (t ∷ ts) = b'"' ∷ (t ++ b'"' ∷ b' ' ∷ quoted_line ts)

abbrev pub HasNoQuote : Text → Type 0
HasNoQuote = All (λ c. c ≢ b'"')

take_quoted-append : (t r : Text) → HasNoQuote t → take_quoted (t ++ b'"' ∷ r) ≡ (t, r)
unfolding take_quoted
take_quoted-append [] r h = refl
take_quoted-append (c ∷ t) r (n, h) = rw (take_quoted-append t r h) (ground arith)

at_comment-quote : (s : Text) → at_comment (b'"' ∷ s) ≡ false
at_comment-quote [] = refl
at_comment-quote (c ∷ s) = refl

tokens-space : (f : ℕ) (s : Text) → tokens f (b' ' ∷ s) ≡ tokens f s
unfolding tokens skip_space
tokens-space zero s = refl
tokens-space (suc f) s = refl

tokens-quoted_line :
    (ts : List Text) (f : ℕ)
    → All HasNoQuote ts
    → length (quoted_line ts) < f
    → tokens f (quoted_line ts) ≡ ts
unfolding tokens quoted_line tokens_from skip_space
tokens-quoted_line ts zero h b = absurd (omega arith)
tokens-quoted_line [] (suc f) h b = refl
tokens-quoted_line (t ∷ ts) (suc f) (n, h) b =
    let l = quoted_line ts in
    let size = length-append t (b'"' ∷ b' ' ∷ l) in
    rw (at_comment-quote (t ++ b'"' ∷ b' ' ∷ l), take_quoted-append t (b' ' ∷ l) n)
      (ap (λ us. t ∷ us) (tokens-space f l ∙ tokens-quoted_line ts f h (omega (arith, size))))

-- A command line of quoted words is read back word for word, whatever spaces, newlines, comment marks
-- or separators the words hold, if none of them holds a quote.
pub tokenize_line-quoted_line :
    (ts : List Text) → All HasNoQuote ts → tokenize_line (quoted_line ts) ≡ ts
unfolding tokenize_line
tokenize_line-quoted_line ts h = tokens-quoted_line ts _ h (omega arith)
