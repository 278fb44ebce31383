-- ===== src/Server/Sessions.antt =====
-- engine/console/ConsoleServer.cpp: cookies, the Origin test, and the sessions of `Impl`. A time is a
-- number of nanoseconds of the steady clock. The unordered maps are association lists.
pub mod Laws
use voxhammer.Base.Int.{pos}
use voxhammer.Console.Numbers.{int_to_text}
use voxhammer.Base.{
  length, zero, suc, write, ◌||◌, find, false, ◌%◌, ◌+◌, ◌^◌, is_nil, ltb, text_eq, true, ◌++◌, ◌-◌,
  ◌/◌, ◌==◌, Bool, [], if◌then◌else◌, ℕ, ◌∷◌, none, some, Option, List, Text, codes,
}

pub record Session : Type 0 where
  pub created : ℕ
  pub last_active : ℕ
  pub source : Text

-- `std::chrono::duration_cast<std::chrono::seconds>` of the time from one point to a later one.
abbrev pub seconds_between : ℕ → ℕ → ℕ
seconds_between t now = (now - t) / 10 ^ 9

-- `sessions.erase(it)`
unfoldable pub erase_key {ℓ} : {V : Type ℓ} → Text → List (Text × V) → List (Text × V)
erase_key k [] = []
erase_key k ((j, v) ∷ m) = let rest = erase_key k m in if text_eq j k then m else (j, v) ∷ rest

abbrev pub Sessions : Type 0
Sessions = List (Text × Session)

-- `SessionValid`: the sessions afterwards, and the answer.
unfoldable pub session_valid : ℕ → ℕ → Text → Sessions → Sessions × Bool
unfolding erase_key
session_valid ttl now token sessions =
    if is_nil token then (sessions, false) else elim (find token sessions) [
      | none ↦ (sessions, false)
      | some s ↦
          if ltb ttl (seconds_between s.last_active now)
          then (erase_key token sessions, false)
          else (write token (record s { last_active = now }) sessions, true)
    ]

-- `OriginAllowed`; a client that is no browser sends no Origin.
unfoldable pub origin_allowed : Bool → ℕ → Option Text → Bool
origin_allowed tls port none = true
origin_allowed tls port (some origin) =
    let scheme = if tls then codes "https" else codes "http" in
    let p = int_to_text (pos port) in
    text_eq origin (scheme ++ (codes "://localhost:" ++ p))
    || text_eq origin (scheme ++ (codes "://127.0.0.1:" ++ p))

-- What follows a prefix of a text.
unfoldable pub strip_prefix : Text → Text → Option Text
strip_prefix [] s = some s
strip_prefix (k ∷ ks) [] = none
strip_prefix (k ∷ ks) (c ∷ s) = if k == c then strip_prefix ks s else none

-- `c.find(key)`, and what follows the key there.
unfoldable pub after_first : Text → Text → Option Text
after_first key [] = if is_nil key then some [] else none
after_first key (c ∷ s) =
    let later = after_first key s in
    elim (strip_prefix key (c ∷ s)) [ some rest ↦ some rest | none ↦ later ]

unfoldable pub until_semicolon : Text → Text
until_semicolon [] = []
until_semicolon (c ∷ s) = let rest = until_semicolon s in if c == b';' then [] else c ∷ rest

-- `CookieValue`
unfoldable pub cookie_value : Option Text → Text → Text
cookie_value none name = []
cookie_value (some c) name = elim (after_first (name ++ b'=' ∷ []) c) [
  | none ↦ []
  | some rest ↦ until_semicolon rest
]

-- `hx[b >> 4]` and `hx[b & 15]`.
abbrev pub hex_digit : ℕ → ℕ
hex_digit n = if ltb n 10 then b'0' + n else b'a' + (n - 10)

-- `RandomToken`, from the 32 bytes that libsodium gives.
unfoldable pub token_of : List ℕ → Text
token_of [] = []
token_of (b ∷ bs) = hex_digit (b / 16) ∷ hex_digit (b % 16) ∷ token_of bs

-- `tok.substr(0, 8)`
unfoldable pub first_chars : ℕ → Text → Text
first_chars zero s = []
first_chars (suc n) [] = []
first_chars (suc n) (c ∷ s) = c ∷ first_chars n s

list_session : ℕ → Text → Session → Text
list_session now tok s =
    codes "  "
    ++ (first_chars 8 tok
        ++ (226 ∷ 128 ∷ 166 ∷ codes " source="
            ++ (s.source
                ++ (codes " age="
                    ++ (int_to_text (pos (seconds_between s.created now))
                        ++ (codes "s idle="
                            ++ (int_to_text (pos (seconds_between s.last_active now))
                                ++ codes "s\n")))))))

list_each : ℕ → Sessions → Text
unfolding list_session
list_each now [] = []
list_each now ((tok, s) ∷ sessions) = list_session now tok s ++ list_each now sessions

-- `ListSessions`, at a time.
pub list_sessions : ℕ → Sessions → Text
unfolding list_each
list_sessions now sessions =
    int_to_text (pos (length sessions)) ++ (codes " active session(s):\n" ++ list_each now sessions)
