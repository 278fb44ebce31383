-- ===== src/Keys/Target.antt =====
-- engine/platform/Keybindings.cpp: `TargetToConsoleLine`. The warning is not modelled.
use voxhammer.Console.Tokens.{is_space, skip_space}
use voxhammer.Base.{
  arith, refl, ◌++◌, ◌≡◌, [], ◌==◌, ◌||◌, ◌≢◌, All, if◌then◌else◌, text_eq, ◌∷◌, Text, codes,
}

-- `in >> kind`, after the spaces: the word, and what is left in the stream.
unfoldable pub take_kind : Text → Text × Text
take_kind [] = ([], [])
take_kind (c ∷ s) =
    let (word, rest) = take_kind s in if is_space c then ([], c ∷ s) else (c ∷ word, rest)

-- `std::getline`: the text up to the end of the line.
unfoldable pub get_line : Text → Text
get_line [] = []
get_line (c ∷ s) = let rest = get_line s in if c == 10 then [] else c ∷ rest

-- `if (!rest.empty() && rest.front() == ' ') rest.erase(0, 1);`
unfoldable pub drop_space : Text → Text
drop_space [] = []
drop_space (c ∷ s) = if c == b' ' then s else c ∷ s

line_of_kind : Text → Text → Text
line_of_kind kind rest =
    if text_eq kind (codes "command") || text_eq kind (codes "cvar.set")
    then rest
    else if text_eq kind (codes "cvar.toggle")
    then codes "toggle " ++ rest
    else []

-- `TargetToConsoleLine`
pub target_to_console_line : Text → Text
unfolding line_of_kind
target_to_console_line target =
    let (kind, rest) = take_kind (skip_space target) in
    line_of_kind kind (drop_space (get_line rest))

get_line_whole : (s : Text) → All (λ c. c ≢ 10) s → get_line s ≡ s
unfolding get_line
get_line_whole [] h = refl
get_line_whole (c ∷ s) (n, h) = rw (get_line_whole s h) (ground arith)

-- The line of each kind of target: the name and arguments of a command, the path and value of a set,
-- or the path of a toggle after the word `toggle`, if what stands after the kind is one line.
pub target_to_console_line_lem :
    (rest : Text)
    → All (λ c. c ≢ 10) rest
    → (target_to_console_line (codes "command " ++ rest) ≡ rest)
      × (target_to_console_line (codes "cvar.set " ++ rest) ≡ rest)
      × (target_to_console_line (codes "cvar.toggle " ++ rest) ≡ codes "toggle " ++ rest)
unfolding target_to_console_line line_of_kind take_kind skip_space drop_space get_line text_eq
target_to_console_line_lem rest h =
    (get_line_whole rest h, get_line_whole rest h, rw (get_line_whole rest h) refl)
