-- ===== src/Server/Clients.antt =====
-- engine/console/ConsoleServer.cpp: the WebSocket clients. A connection is known by a text, of which
-- only equality is used; a set of topics and the map of the clients are lists. `mg_get_var` is a
-- parameter.
pub mod Admission
use voxhammer.Console.Setting.{contains}
use voxhammer.Server.Sessions.{Sessions, session_valid, origin_allowed, cookie_value, erase_key}
use voxhammer.Server.Login.{LoginConfig}
use voxhammer.Base.{
  ◌||◌, is_nil, [], not, text_eq, ◌++◌, none, some, Bool, codes, find, if◌then◌else◌, ℕ, ◌∷◌, Text,
  List, Option,
}

-- `ws_clients`, and what `mg_websocket_write` was called with.
pub record Clients : Type 0 where
  pub ws_clients : List (Text × List Text)
  pub written : List (Text × Text)

-- The headers of the upgrade request, and its query string.
pub record Upgrade : Type 0 where
  pub conn : Text
  pub origin : Option Text
  pub cookie : Option Text
  pub query : Option Text

module _ (get_var : Text → Text → Text) (cfg : LoginConfig) (ttl : ℕ) where
  -- `QueryParam`
  unfoldable pub query_param : Option Text → Text → Text
  query_param none name = []
  query_param (some qs) name = get_var qs name

  -- `WsConnect`: the sessions afterwards, and 0 if the connection is accepted.
  unfoldable pub ws_connect : ℕ → Upgrade → Sessions → Sessions × ℕ
  unfolding query_param
  ws_connect now up sessions =
      if not (origin_allowed cfg.tls cfg.port up.origin)
      then (sessions, 403)
      else let cookie_tok = cookie_value up.cookie (codes "vox_session") in
        let query_tok = query_param up.query (codes "token") in
        if is_nil cookie_tok || not (text_eq cookie_tok query_tok)
        then (sessions, 401)
        else let (sessions', ok) = session_valid ttl now cookie_tok sessions in
          (sessions', if ok then 0 else 401)

-- `WsReady`: `ws_clients[conn]` adds an empty set where there is none.
unfoldable pub ws_ready : Text → Clients → Clients
ws_ready conn cl = elim (find conn cl.ws_clients) [
  | some topics ↦ cl
  | none ↦ record cl { ws_clients = (conn, []) ∷ cl.ws_clients }
]

-- `WsClose`
unfoldable pub ws_close : Text → Clients → Clients
ws_close conn cl = record cl { ws_clients = erase_key conn cl.ws_clients }

-- `SendWs`
unfoldable pub send_ws : Text → Text → Clients → Clients
send_ws conn text cl = elim (find conn cl.ws_clients) [
  | none ↦ cl
  | some topics ↦ record cl { written = cl.written ++ (conn, text) ∷ [] }
]

-- `std::set::insert` and `std::set::erase`.
unfoldable pub insert_topic : Text → List Text → List Text
insert_topic t topics = if contains topics t then topics else topics ++ t ∷ []

unfoldable pub erase_topic : Text → List Text → List Text
erase_topic t [] = []
erase_topic t (u ∷ topics) =
    let rest = erase_topic t topics in if text_eq u t then rest else u ∷ rest

-- What `BroadcastEvent` writes: the event, to each client that has the topic.
unfoldable pub event_writes : Text → Text → List (Text × List Text) → List (Text × Text)
event_writes topic env [] = []
event_writes topic env ((conn, topics) ∷ clients) =
    let rest = event_writes topic env clients in
    if contains topics topic then (conn, env) ∷ rest else rest

-- The envelope of an event; the time is given as a text.
unfoldable pub envelope : Text → Text → Text → Text
envelope topic ts data_json =
    codes "{\"type\":\"event\",\"topic\":\""
    ++ (topic ++ (codes "\",\"ts\":" ++ (ts ++ (codes ",\"data\":" ++ (data_json ++ codes "}")))))

-- `BroadcastEvent`
unfoldable pub broadcast_event : Bool → Text → Text → Text → Clients → Clients
broadcast_event running ts topic data_json cl = if not running then cl else record cl {
  written = cl.written ++ event_writes topic (envelope topic ts data_json) cl.ws_clients;
}
