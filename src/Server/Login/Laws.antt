-- ===== src/Server/Login/Laws.antt =====
-- engine/console/ConsoleServer.cpp, `HandleLogin`: which requests open a session.
use voxhammer.Server.Sessions.{origin_allowed, Session}
use voxhammer.Server.Login.{
  rate_of, accept_login, reject_login, check_password, handle_login, LoginConfig, LoginState,
  LoginRequest, Body, password, no_password, not_text,
}
use voxhammer.Base.{
  refl, arith, text_eq_iff, ◌∙◌, sym, text_eq, assign, find-assign, ltb, inl, ◌&&◌, not, Bool-cases,
  inr, false, is_nil, true, [], find, ◌≡◌, ◌⊎◌, ◌∷◌, Bool, ℕ, some, List, Text,
}

-- A request with its time and the token at hand.
pub record Attempt : Type 0 where
  pub now : ℕ
  pub token : Text
  pub request : LoginRequest

module _ (verify : Text → Text → Bool) (cfg : LoginConfig) where
  unfoldable pub run_logins : List Attempt → LoginState → LoginState
  run_logins [] st = st
  run_logins (a ∷ as') st = run_logins as' (handle_login verify cfg a.now a.token a.request st).0

  -- The attempt could open the session: an allowed origin, and a password that is not empty and that
  -- the hash verifies.
  abbrev pub Opens : Attempt → Text → Session → Type 0
  Opens a token s =
      (origin_allowed cfg.tls cfg.port a.request.origin ≡ true)
      × (token ≡ a.token)
      × (s ≡ record { created = a.now; last_active = a.now; source = a.request.addr })
      × ((p : Text) × (a.request.body ≡ password p)
          × (is_nil p ≡ false)
          × (verify p cfg.password_hash ≡ true))

  abbrev pub AnyOpens : List Attempt → Text → Session → Type 0
  AnyOpens [] token s = ⊥
  AnyOpens (a ∷ as') token s = Opens a token s ⊎ AnyOpens as' token s

  -- The sessions after a password has been looked at: as before, or with the new one.
  check_password-sessions :
      (now : ℕ) (token addr : Text) (body : Body) (st : LoginState) (k : Text) (s : Session)
      → find k (check_password verify cfg now token addr body st).0.sessions ≡ some s
      → ((k ≡ token)
          × (s ≡ record { created = now; last_active = now; source = addr })
          × ((p : Text) × (body ≡ password p)
              × (is_nil p ≡ false)
              × (verify p cfg.password_hash ≡ true)))
        ⊎ (find k st.sessions ≡ some s)
  unfolding check_password reject_login accept_login
  check_password-sessions now token addr no_password st k s e = inr e
  check_password-sessions now token addr not_text st k s e = inr e
  check_password-sessions now token addr (password p) st k s e =
      elim (Bool-cases (not (is_nil p) && verify p cfg.password_hash)) [
        | inr f ↦ inr (rw f at e)
        | inl f ↦
            let new : Session = record { created = now; last_active = now; source = addr } in
            let read = find-assign token k new st.sessions in
            let held : find k (assign token new st.sessions) ≡ some s = rw f at e in
            elim (Bool-cases (text_eq token k)) [
              | inl g ↦
                  let same : some new ≡ some s = (sym (read ∙ rw g)) ∙ held in
                  inl (
                    sym ((text_eq_iff token k).0 g),
                    cc,
                    (p, refl, ground (arith, f), ground (arith, f)),
                  )
              | inr g ↦ inr (sym (read ∙ rw g) ∙ held)
            ]
      ]

  pub handle_login-sessions :
      (a : Attempt) (st : LoginState) (k : Text) (s : Session)
      → find k (handle_login verify cfg a.now a.token a.request st).0.sessions ≡ some s
      → Opens a k s ⊎ (find k st.sessions ≡ some s)
  unfolding handle_login
  handle_login-sessions a st k s e =
      elim (Bool-cases (origin_allowed cfg.tls cfg.port a.request.origin)) [
        | inr f ↦ inr (rw f at e)
        | inl f ↦ elim (Bool-cases (ltb a.now (rate_of a.request.addr st.rate).lockout_until)) [
          | inl g ↦ inr (rw (f, g) at e)
          | inr g ↦
              let held : find k
                    (check_password verify cfg a.now a.token a.request.addr a.request.body
                      st).0.sessions
                  ≡ some s =
                rw (f, g) at e in
              elim (check_password-sessions a.now a.token a.request.addr a.request.body st k s
                held) [ inl (t, u, v) ↦ inl (f, t, u, v) | inr h ↦ inr h ]
        ]
      ]

  -- Every session that a run of login requests leaves was there before, or was opened by one of the
  -- requests: with its token, at its time and from its address, from an allowed origin and with a
  -- password that the hash verifies.
  pub run_logins-AnyOpens :
      (as' : List Attempt) (st : LoginState) (k : Text) (s : Session)
      → find k (run_logins as' st).sessions ≡ some s
      → AnyOpens as' k s ⊎ (find k st.sessions ≡ some s)
  unfolding run_logins
  run_logins-AnyOpens [] st k s e = inr e
  run_logins-AnyOpens (a ∷ as') st k s e =
      elim (run_logins-AnyOpens as' (handle_login verify cfg a.now a.token a.request st).0 k s e) [
        | inl h ↦ inl (inr h)
        | inr h ↦ elim (handle_login-sessions a st k s h) [ inl g ↦ inl (inl g) | inr g ↦ inr g ]
      ]
