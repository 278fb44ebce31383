-- ===== src/Server/Login/Sections.antt =====
-- engine/console/ConsoleServer.cpp, `HandleLogin` on the threads of the server. The lock is taken for
-- the test of the lockout, and again after the password has been looked at, so that other requests
-- come in between. What follows the second lock, the entry of the session, counts to that part.
use voxhammer.Server.Sessions.{origin_allowed}
use voxhammer.Server.Login.{
  refused, rate_of, check_password, handle_login, Answer, LoginConfig, LoginRequest, LoginState,
}
use voxhammer.Base.{
  refl, inl, inr, Bool-cases, ltb, not, if◌then◌else◌, zero, some, [], none, ◌≡◌, suc, Option, ◌∷◌,
  Bool, List, Text, ℕ,
}

-- A request that the test of the lockout has let through, with the time it came at.
pub record Pending : Type 0 where
  pub now : ℕ
  pub token : Text
  pub request : LoginRequest

pub record Logins : Type 0 where
  pub login_state : LoginState
  pub pending : List Pending

-- A request comes, or the first pending one of a position is gone on with.
pub data Section : Type 0 where
  arrive : (now : ℕ) (token : Text) (req : LoginRequest) → Section
  resume : (at : ℕ) → Section

unfoldable pub erase_at : ℕ → List Pending → List Pending
erase_at i [] = []
erase_at zero (p ∷ ps) = ps
erase_at (suc i) (p ∷ ps) = p ∷ erase_at i ps

unfoldable pub pending_at : ℕ → List Pending → Option Pending
pending_at i [] = none
pending_at zero (p ∷ ps) = some p
pending_at (suc i) (p ∷ ps) = pending_at i ps

module _ (cfg : LoginConfig) where
  -- Up to the test of the lockout: the answer of a request that is refused there.
  unfoldable pub admit_login : ℕ → Text → LoginRequest → Logins → Logins × Option Answer
  admit_login now token req l =
      if not (origin_allowed cfg.tls cfg.port req.origin)
      then (l, some (refused 403))
      else if ltb now (rate_of req.addr l.login_state.rate).lockout_until
      then (l, some (refused 429))
      else (
        record l { pending = record { now = now; token = token; request = req } ∷ l.pending },
        none,
      )

module _ (verify : Text → Text → Bool) (cfg : LoginConfig) where
  -- From the reading of the body on.
  unfoldable pub finish_login : Option Pending → List Pending → LoginState → Logins × Option Answer
  finish_login none rest st = (record { login_state = st; pending = rest }, none)
  finish_login (some p) rest st =
      let (st', answer) =
        check_password verify cfg p.now p.token p.request.addr p.request.body st in
      (record { login_state = st'; pending = rest }, some answer)

  unfoldable pub login_section : Section → Logins → Logins × Option Answer
  unfolding admit_login finish_login erase_at pending_at
  login_section (arrive now token req) l = admit_login cfg now token req l
  login_section (resume at) l =
      finish_login (pending_at at l.pending) (erase_at at l.pending) l.login_state

  unfoldable pub run_sections : List Section → Logins → Logins
  run_sections [] l = l
  run_sections (x ∷ xs) l = run_sections xs (login_section x l).0

  -- The two parts of a request, one after the other.
  both_parts : ℕ → Text → LoginRequest → LoginState → LoginState × Option Answer
  unfolding login_section
  both_parts now token req st =
      let (l, early) = admit_login cfg now token req (record { login_state = st; pending = [] }) in
      elim early [
        | some answer ↦ (l.login_state, some answer)
        | none ↦ let (l', late) = login_section (resume 0) l in (l'.login_state, late)
      ]

  -- Without other sections in between the two parts are `handle_login`.
  both_parts-handle_login :
      (now : ℕ) (token : Text) (req : LoginRequest) (st : LoginState)
      → let (st', answer) = handle_login verify cfg now token req st in
        both_parts now token req st ≡ (st', some answer)
  unfolding both_parts login_section admit_login handle_login finish_login pending_at erase_at
  both_parts-handle_login now token req st =
      elim (Bool-cases (origin_allowed cfg.tls cfg.port req.origin)) [
        | inr f ↦ rw (f, both_parts, handle_login, admit_login) (rw (f, admit_login) refl)
        | inl f ↦ elim (Bool-cases (ltb now (rate_of req.addr st.rate).lockout_until)) [
          | inl g ↦ rw (f, g, both_parts, handle_login, admit_login) (rw (f, g, admit_login) refl)
          | inr g ↦ rw (f, g, both_parts, handle_login, admit_login) (rw (f, g, admit_login) refl)
        ]
      ]
