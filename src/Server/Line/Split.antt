-- ===== src/Server/Line/Split.antt =====
-- engine/console/ConsoleServer.cpp, `LineClientLoop`: the packets that arrive, the lines in
-- them, and the commands that are queued.
use mathlib.Core.List.{append-nil, append_assoc}
use voxhammer.Server.Line.{
  Recv, Round, Action, line, ended, got, peer_closed, sent, queued, hung_up, cut_line, drop_return,
  read_line, is_quit, serve_lines, line_client,
}
use voxhammer.Base.{
  Bool-cases, ap, true, inr, inl, All, Bool, Option-cases, ◌<◌, ◌∙◌, arith, is_nil, length, sym,
  ◌==◌, refl, if◌then◌else◌, none, some, [], ◌++◌, ◌∷◌, ◌≡◌, Text, List,
}

-- The lines of a text, each ended by a newline; what follows the last newline is no line.
unfoldable pub lines_of : Text → List Text
lines_of [] = []
lines_of (c ∷ s) =
    let rest = lines_of s in
    if c == 10 then [] ∷ rest else elim rest [ [] ↦ [] | l ∷ ls ↦ (c ∷ l) ∷ ls ]

-- The commands among the lines: those that are not empty, up to the first `quit` or `exit`.
unfoldable pub commands_of : List Text → List Text
commands_of [] = []
commands_of (l ∷ ls) =
    let rest = commands_of ls in
    let c = drop_return l in if is_nil c then rest else if is_quit c then [] else c ∷ rest

-- The commands that a worker has queued, in order.
unfoldable pub queued_of : List Action → List Text
queued_of [] = []
queued_of (queued l ∷ as') = l ∷ queued_of as'
queued_of (sent s ∷ as') = queued_of as'
queued_of (hung_up ∷ as') = queued_of as'

-- Packets, and then the end.
unfoldable pub stream : List Text → List Recv
stream [] = peer_closed ∷ []
stream (p ∷ ps) = got p ∷ stream ps

unfoldable pub join : List Text → Text
join [] = []
join (p ∷ ps) = p ++ join ps

cut_line-append :
    (s t l rest : Text) → cut_line s ≡ some (l, rest) → cut_line (s ++ t) ≡ some (l, rest ++ t)
unfolding cut_line
cut_line-append [] t l rest e = absurd (ground arith)
cut_line-append (c ∷ s) t l rest e = elim (Option-cases (cut_line s)) [
  | inl f ↦ ground (arith, f)
  | inr ((l', r'), f) ↦ ground (arith, f, cut_line-append s t l' r' f)
]

lines_of-none : (s : Text) → cut_line s ≡ none → lines_of s ≡ []
unfolding cut_line lines_of
lines_of-none [] e = refl
lines_of-none (c ∷ s) e = ground (arith, lines_of-none s)

lines_of-some :
    (s l rest : Text)
    → cut_line s ≡ some (l, rest)
    → (lines_of s ≡ l ∷ lines_of rest) × (length rest < length s)
unfolding cut_line lines_of
lines_of-some [] l rest e = absurd (ground arith)
lines_of-some (c ∷ s) l rest e = elim (Option-cases (cut_line s)) [
  | inl f ↦ ground (arith, f)
  | inr ((l', r'), f) ↦ ground (arith, f, lines_of-some s l' r' f)
]

read_line-none :
    (buf : Text) (ps : List Text)
    → cut_line (buf ++ join ps) ≡ none
    → read_line buf (stream ps) ≡ ended
unfolding read_line stream join
read_line-none buf [] e =
    let f : cut_line buf ≡ none = rw (append-nil buf) at e in rw (read_line, f) refl
read_line-none buf (p ∷ ps) e = elim (Option-cases (cut_line buf)) [
  | inl f ↦
      rw (read_line, f)
        (read_line-none (buf ++ p) ps (ap cut_line (append_assoc buf p (join ps)) ∙ e))
  | inr ((l, r), f) ↦ ground (arith, e, cut_line-append buf (p ++ join ps) l r f)
]

-- What is left: a buffer and packets, which hold the given text.
abbrev Leaves : Text → Text → Text → List Text → Type 0
Leaves buf l rest ps =
    (buf' : Text) × (ps' : List Text) × (read_line buf (stream ps)
      ≡ line (drop_return l) buf' (stream ps'))
    × (buf' ++ join ps' ≡ rest)

read_line-some :
    (buf l rest : Text) (ps : List Text)
    → cut_line (buf ++ join ps) ≡ some (l, rest)
    → Leaves buf l rest ps
unfolding read_line stream join
read_line-some buf l rest [] e =
    let f : cut_line buf ≡ some (l, rest) = rw (append-nil buf) at e in
    (rest, [], rw (read_line, f) refl, append-nil rest)
read_line-some buf l rest (p ∷ ps) e = elim (Option-cases (cut_line buf)) [
  | inl f ↦
      let (buf', ps', a, b) =
        read_line-some (buf ++ p) l rest ps (ap cut_line (append_assoc buf p (join ps)) ∙ e) in
      (buf', ps', rw (read_line, f) a, b)
  | inr ((l', rest'), f) ↦
      let same = sym (cut_line-append buf (p ++ join ps) l' rest' f) ∙ e in
      let same_l : l' ≡ l = ground (arith, same) in
      let same_rest : rest' ++ (p ++ join ps) ≡ rest = ground (arith, same) in
      (rest', p ∷ ps, rw (read_line, f, same_l) refl, same_rest)
]

-- Enough rounds, in all of which the server runs.
abbrev pub AllRunning : List Round → Type 0
AllRunning = All (λ r. r.running ≡ true)

serve_lines-queued :
    (rounds : List Round) (buf : Text) (ps : List Text)
    → AllRunning rounds
    → length (buf ++ join ps) < length rounds
    → queued_of (serve_lines rounds buf (stream ps)) ≡ commands_of (lines_of (buf ++ join ps))
unfolding serve_lines queued_of commands_of
serve_lines-queued [] buf ps a h = absurd (omega arith)
serve_lines-queued (r ∷ rounds) buf ps (q, a) h = elim (Option-cases (cut_line (buf ++ join ps))) [
  | inl e ↦ rw (q, read_line-none buf ps e, lines_of-none (buf ++ join ps) e) refl
  | inr ((l, rest), e) ↦
      let (buf', ps', f, g) = read_line-some buf l rest ps e in
      let (lines, less) = lines_of-some (buf ++ join ps) l rest e in
      let more = serve_lines-queued rounds buf' ps' a (rw g (omega (arith, less, h))) in
      rw (q, f, lines) (ground (arith, more, g))
]

-- However what arrives is cut into packets, while the server runs and the rounds are enough for it:
-- if the password hash verifies the first line, the commands queued are the lines after it that are
-- not empty, in order and up to the first `quit` or `exit`; if it does not, none is queued.
pub line_client-queued :
    (verify : Text → Text → Bool) (password_hash pw rest : Text) (rounds : List Round)
    (ps : List Text)
    → AllRunning rounds
    → length (join ps) < length rounds
    → cut_line (join ps) ≡ some (pw, rest)
    → queued_of (line_client verify password_hash rounds (stream ps))
      ≡ (if verify (drop_return pw) password_hash then commands_of (lines_of rest) else [])
unfolding line_client queued_of
line_client-queued verify password_hash pw rest rounds ps a h e =
    let (buf', ps', f, g) = read_line-some [] pw rest ps e in
    let less = (lines_of-some (join ps) pw rest e).1 in
    elim (Bool-cases (verify (drop_return pw) password_hash)) [
      | inl v ↦
          rw (line_client, f, v)
            (serve_lines-queued rounds buf' ps' a (rw g (omega (arith, less, h))) ∙ rw g refl)
      | inr v ↦ rw (line_client, f, v) refl
    ]
