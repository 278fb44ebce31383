-- ===== src/Server/Clients/Admission.antt =====
-- engine/console/ConsoleServer.cpp: how a WebSocket client gets in. civetweb calls `WsReady` only for
-- a connection that `WsConnect` accepted.
use voxhammer.Server.Sessions.Laws.{session_valid-find, session_valid-live, find-erase_key}
use voxhammer.Server.Sessions.{
  Session, Sessions, session_valid, origin_allowed, cookie_value, seconds_between,
}
use voxhammer.Server.Login.{LoginConfig, LoginState, handle_login}
use voxhammer.Server.Login.Laws.{handle_login-sessions, Attempt, Opens}
use voxhammer.Server.Clients.{query_param, Upgrade, Clients, ws_connect, ws_ready, ws_close}
use voxhammer.Base.{
  refl, false, not, text_eq_iff, ◌||◌, ==_iff, is_nil, text_eq, Bool-cases, arith, inl, inr,
  Option-cases, none, ◌≤◌, some, true, ◌==◌, [], codes, if◌then◌else◌, ◌∷◌, ◌≡◌, ◌⊎◌, Bool, find,
  Text, ℕ, List,
}

-- What happens to the server, with the time where it matters.
pub data Event : Type 0 where
  login : Attempt → Event
  upgrade : ℕ → Upgrade → Event
  close : Text → Event
  rotate_sessions : Event

pub record Door : Type 0 where
  pub login_state : LoginState
  pub clients : Clients

ws_ready-find :
    (up conn : Text) (cl : Clients) (topics : List Text)
    → find conn (ws_ready up cl).ws_clients ≡ some topics
    → (up ≡ conn) ⊎ (find conn cl.ws_clients ≡ some topics)
unfolding ws_ready find
ws_ready-find up conn cl topics e = elim (Option-cases (find up cl.ws_clients)) [
  | inr (t, f) ↦ inr (rw (ws_ready, f) at e)
  | inl f ↦ elim (Bool-cases (text_eq up conn)) [
    | inl g ↦ inl ((text_eq_iff up conn).0 g)
    | inr g ↦ inr (rw (ws_ready, f, g) at e)
  ]
]

abbrev status_of : Bool → ℕ
status_of ok = if ok then 0 else 401

zero_status : (b : Bool) → status_of b ≡ 0 → b ≡ true
zero_status true e = refl
zero_status false e = absurd (omega (arith, e))

module _ (get_var : Text → Text → Text) (verify : Text → Text → Bool) (cfg : LoginConfig)
    (ttl : ℕ) where
  ws_connect-find :
      (now : ℕ) (up : Upgrade) (m : Sessions) (j : Text) (v : Session)
      → find j (ws_connect get_var cfg ttl now up m).0 ≡ some v
      → (w : Session) × (find j m ≡ some w)
  unfolding ws_connect
  ws_connect-find now up m j v e =
      let token = cookie_value up.cookie (codes "vox_session") in
      let query = query_param get_var cfg ttl up.query (codes "token") in
      elim (Bool-cases (origin_allowed cfg.tls cfg.port up.origin)) [
        | inr f ↦ (v, rw f at e)
        | inl f ↦ elim (Bool-cases (is_nil token || not (text_eq token query))) [
          | inl g ↦ (v, rw (f, g) at e)
          | inr g ↦ session_valid-find ttl now token m j v (rw (f, g) at e)
        ]
      ]

  ws_connect-accepted :
      (now : ℕ) (up : Upgrade) (m : Sessions)
      → (ws_connect get_var cfg ttl now up m).1 ≡ 0
      → let token = cookie_value up.cookie (codes "vox_session") in
        (origin_allowed cfg.tls cfg.port up.origin ≡ true)
        × (token ≡ query_param get_var cfg ttl up.query (codes "token"))
        × ((s : Session) × (find token m ≡ some s) × (seconds_between s.last_active now ≤ ttl))
  unfolding ws_connect
  ws_connect-accepted now up m e =
      let token = cookie_value up.cookie (codes "vox_session") in
      let query = query_param get_var cfg ttl up.query (codes "token") in
      elim (Bool-cases (origin_allowed cfg.tls cfg.port up.origin)) [
        | inr f ↦ let bad : 403 ≡ 0 = rw f at e in absurd (omega (arith, bad))
        | inl f ↦ elim (Bool-cases (is_nil token || not (text_eq token query))) [
          | inl g ↦ let bad : 401 ≡ 0 = rw (f, g) at e in absurd (omega (arith, bad))
          | inr g ↦
              let ok = (session_valid ttl now token m).1 in
              let status : (if ok then 0 else 401) ≡ 0 = rw (f, g) at e in
              (
                f,
                (text_eq_iff token query).0 (ground (arith, g)),
                session_valid-live ttl now token m (zero_status ok status),
              )
        ]
      ]

  abbrev with_sessions : Sessions → LoginState → LoginState
  with_sessions sessions st = record st { sessions = sessions }

  -- `RotateSessions`
  abbrev clear_sessions : LoginState → LoginState
  clear_sessions st = record st { sessions = [] }

  -- The handshake: `WsConnect`, and `WsReady` if it accepts.
  unfoldable pub upgrade_client : ℕ → Upgrade → Door → Door
  upgrade_client now up d =
      let (sessions, status) = ws_connect get_var cfg ttl now up d.login_state.sessions in
      record {
        login_state = with_sessions sessions d.login_state;
        clients = if status == 0 then ws_ready up.conn d.clients else d.clients;
      }

  unfoldable pub door_step : Event → Door → Door
  unfolding upgrade_client
  door_step (login a) d = record d {
    login_state = (handle_login verify cfg a.now a.token a.request d.login_state).0;
  }
  door_step (upgrade now up) d = upgrade_client now up d
  door_step (close conn) d = record d { clients = ws_close conn d.clients }
  door_step rotate_sessions d = record d { login_state = clear_sessions d.login_state }

  -- The state after the events, the newest of which is first.
  unfoldable pub run_door : Door → List Event → Door
  run_door d [] = d
  run_door d (e ∷ es) = door_step e (run_door d es)

  -- A login among the events opened a session with the token.
  abbrev pub Logged : List Event → Text → Type 0
  Logged [] token = ⊥
  Logged (login a ∷ es) token = ((s : Session) × Opens verify cfg a token s) ⊎ Logged es token
  Logged (upgrade now up ∷ es) token = Logged es token
  Logged (close conn ∷ es) token = Logged es token
  Logged (rotate_sessions ∷ es) token = Logged es token

  module _ (start : Door) where
    -- The upgrade came from an allowed origin, and its cookie and query hold a token that a login among the
    -- events before it opened and whose session was then live.
    abbrev pub Admits : List Event → ℕ → Upgrade → Type 0
    Admits es now up =
        let token = cookie_value up.cookie (codes "vox_session") in
        (origin_allowed cfg.tls cfg.port up.origin ≡ true)
        × (token ≡ query_param get_var cfg ttl up.query (codes "token"))
        × Logged es token
        × ((s : Session) × (find token (run_door start es).login_state.sessions ≡ some s)
            × (seconds_between s.last_active now ≤ ttl))

    abbrev pub Admitted : List Event → Text → Type 0
    Admitted [] conn = ⊥
    Admitted (upgrade now up ∷ es) conn = ((up.conn ≡ conn) × Admits es now up) ⊎ Admitted es conn
    Admitted (login a ∷ es) conn = Admitted es conn
    Admitted (close c ∷ es) conn = Admitted es conn
    Admitted (rotate_sessions ∷ es) conn = Admitted es conn

    module _ (no_sessions : start.login_state.sessions ≡ [])
        (no_clients : start.clients.ws_clients ≡ []) where
      run_door-Logged :
          (es : List Event) (token : Text) (s : Session)
          → find token (run_door start es).login_state.sessions ≡ some s
          → Logged es token
      unfolding run_door door_step upgrade_client find
      run_door-Logged [] token s e =
          let bad : none ≡ some s = rw (run_door, no_sessions) at e in absurd (ground arith)
      run_door-Logged (login a ∷ es) token s e =
          elim (handle_login-sessions verify cfg a (run_door start es).login_state token s e) [
            | inl h ↦ inl (s, h)
            | inr h ↦ inr (run_door-Logged es token s h)
          ]
      run_door-Logged (upgrade now up ∷ es) token s e =
          let m = (run_door start es).login_state.sessions in
          let (w, h) = ws_connect-find now up m token s e in run_door-Logged es token w h
      run_door-Logged (close conn ∷ es) token s e = run_door-Logged es token s e
      run_door-Logged (rotate_sessions ∷ es) token s e = absurd (ground (arith, e))

      -- From a server without sessions and clients: every client that is connected after some events
      -- came in by an upgrade from an allowed origin, with a token in its cookie and query that a login before
      -- it opened, and whose session was then live and idle for no longer than its time to live.
      pub run_door-Admitted :
          (es : List Event) (conn : Text) (topics : List Text)
          → find conn (run_door start es).clients.ws_clients ≡ some topics
          → Admitted es conn
      unfolding run_door door_step upgrade_client find ws_close
      run_door-Admitted [] conn topics e =
          let bad : none ≡ some topics = rw (run_door, no_clients) at e in absurd (ground arith)
      run_door-Admitted (login a ∷ es) conn topics e = run_door-Admitted es conn topics e
      run_door-Admitted (upgrade now up ∷ es) conn topics e =
          let st = run_door start es in
          let status = (ws_connect get_var cfg ttl now up st.login_state.sessions).1 in
          elim (Bool-cases (status == 0)) [
            | inr f ↦ inr (run_door-Admitted es conn topics (rw f at e))
            | inl f ↦
                let (allowed, matched, (s, h, fresh)) =
                  ws_connect-accepted now up st.login_state.sessions ((==_iff status 0).0 f) in
                let token = cookie_value up.cookie (codes "vox_session") in
                let logged = run_door-Logged es token s h in
                elim (ws_ready-find up.conn conn st.clients topics (rw f at e)) [
                  | inl g ↦ inl (g, (allowed, matched, logged, (s, h, fresh)))
                  | inr g ↦ inr (run_door-Admitted es conn topics g)
                ]
          ]
      run_door-Admitted (close c ∷ es) conn topics e =
          let (w, h) = find-erase_key c (run_door start es).clients.ws_clients conn topics e in
          run_door-Admitted es conn w h
      run_door-Admitted (rotate_sessions ∷ es) conn topics e = run_door-Admitted es conn topics e
