-- ===== src/Server/Messages.antt =====
-- engine/console/ConsoleServer.cpp: `HandleMessage`, and how messages come to it. The JSON library
-- and the digits of an event's time are parameters; the log is not modelled.
pub mod Laws
use voxhammer.Console.Floats.{Floats}
use voxhammer.Console.Registry.{
  CVar, CVarType, Command, Console, Call, sunk, changed, find_cvar, enumerate, is_readonly, int,
  float, bool, enum, vec3, color, string,
}
use voxhammer.Console.Setting.{set_cvar_override}
use voxhammer.Console.Execute.{execute, Callback, ExecuteResult}
use voxhammer.Server.Base64.{base64_decode}
use voxhammer.Server.Clients.{Clients, send_ws, broadcast_event, insert_topic, erase_topic}
use voxhammer.Base.{
  is_nil, map, write, [], find, length, ltb, not, text_eq, ◌∷◌, some, Bool, codes, drop, false,
  if◌then◌else◌, true, ◌*◌, ◌++◌, none, Text, ℕ, List, Option,
}

-- The calls of nlohmann's JSON library. `value` is `msg.value(key, default)`, `elements` the loop over
-- a value, and `text_of` is `get<std::string>()`; `none` is an exception.
pub record Json (F : Type 0) : Type 1 where
  pub J : Type 0
  pub parse : Text → Option J
  pub value : J → Text → Text → Option Text
  pub member : J → Text → Option J
  pub elements : J → List J
  pub text_of : J → Option Text
  pub text_node : Text → J
  pub bool_node : Bool → J
  pub nat_node : ℕ → J
  pub float_node : F → J
  pub array_node : List J → J
  pub object_node : List (Text × J) → J
  pub dump : J → Text

-- The server as `HandleMessage` sees it, with the uploads that its handler got.
pub record Hub (F : Type 0) : Type 0 where
  pub clients : Clients
  pub con : Console F
  pub running : Bool
  pub upload_handler : Bool
  pub uploads : List (Text × Text)

-- The state that is left, and whether the handler ended with an exception.
pub record Handled (F : Type 0) : Type 0 where
  pub hub : Hub F
  pub threw : Bool

-- `TypeName`
unfoldable pub type_name : CVarType → Text
type_name int = codes "int"
type_name float = codes "float"
type_name bool = codes "bool"
type_name enum = codes "enum"
type_name vec3 = codes "vec3"
type_name color = codes "color"
type_name string = codes "string"

abbrev pub max_vox_bytes : ℕ
max_vox_bytes = 16 * 1024 * 1024

module _ (fl : Floats) (js : Json fl.F) (callback : Callback fl.F) (ts : Text) where
  open fl use {F}
  open js use {J}

  -- `CvarToJson`
  pub cvar_to_json : CVar F → J
  cvar_to_json cv = js.object_node (
      (codes "name", js.text_node cv.name)
      ∷ (codes "value", js.text_node cv.value)
      ∷ (codes "default", js.text_node cv.default_value)
      ∷ (codes "description", js.text_node cv.description)
      ∷ (codes "type", js.text_node (type_name cv.type))
      ∷ (codes "flags", js.nat_node cv.flags)
      ∷ (codes "enum_values", js.array_node (map js.text_node cv.enum_values))
      ∷ (codes "range_min", js.float_node cv.range_min)
      ∷ (codes "range_max", js.float_node cv.range_max)
      ∷ (codes "range_step", js.float_node cv.range_step)
      ∷ (codes "live_tunable", js.bool_node cv.live_tunable)
      ∷ [])

  -- The sink that `Start` installs: an event for every call of it, in order.
  pub sink_events : Bool → List (Call F) → Clients → Clients
  sink_events running [] cl = cl
  sink_events running (changed cv ∷ calls) cl = sink_events running calls cl
  sink_events running (sunk cv ∷ calls) cl =
      sink_events running calls
        (broadcast_event running ts (codes "cvar") (js.dump (cvar_to_json cv)) cl)

  -- A step of the console, and the events of the calls that it adds.
  unfoldable pub with_console : Console F → Hub F → Hub F
  with_console con' hub = record hub {
    con = con';
    clients = sink_events hub.running (drop (length hub.con.calls) con'.calls) hub.clients;
  }

  -- The lambda `reply`, for the fields that the handler gives.
  pub reply : Text → Text → List (Text × J) → Hub F → Handled F
  reply conn id fields hub =
      let tagged = fields ++ (codes "type", js.text_node (codes "result")) ∷ [] in
      let all = if is_nil id then tagged else tagged ++ (codes "id", js.text_node id) ∷ [] in
      record {
        hub = record hub { clients = send_ws conn (js.dump (js.object_node all)) hub.clients };
        threw = false;
      }

  failure : Text → List (Text × J)
  failure error = (codes "ok", js.bool_node false) ∷ (codes "error", js.text_node error) ∷ []

  list_cvars : Text → Text → Hub F → Handled F
  list_cvars conn id hub =
      reply conn id
        ((codes "ok", js.bool_node true)
          ∷ (codes "cvars", js.array_node (map cvar_to_json (enumerate [] hub.con.cvars)))
          ∷ [])
        hub

  command_json : Command → J
  command_json c =
      js.object_node (
        (codes "name", js.text_node c.name)
        ∷ (codes "description", js.text_node c.description)
        ∷ [])

  list_commands : Text → Text → Hub F → Handled F
  unfolding command_json
  list_commands conn id hub =
      reply conn id
        ((codes "ok", js.bool_node true)
          ∷ (codes "commands", js.array_node (map command_json (enumerate [] hub.con.commands)))
          ∷ [])
        hub

  get_cvar : Text → Text → Text → Hub F → Handled F
  unfolding failure
  get_cvar conn id name hub = elim (find_cvar hub.con name) [
    | none ↦ reply conn id (failure (codes "unknown cvar")) hub
    | some cv ↦
        reply conn id ((codes "ok", js.bool_node true) ∷ (codes "cvar", cvar_to_json cv) ∷ []) hub
  ]

  -- The fields of the answer to `set_cvar`, where `found` is whether the cvar was there.
  set_fields : Console F → Text → Bool → Bool → List (Text × J)
  set_fields con name found ok =
      (codes "ok", js.bool_node ok)
        ∷ (if ok
            then []
            else (
              codes "error",
              js.text_node
                  (if found then codes "read-only or invalid value" else codes "unknown cvar"),
            )
              ∷ [])
      ++ elim (find_cvar con name) [ none ↦ [] | some cv ↦ (codes "cvar", cvar_to_json cv) ∷ [] ]

  set_cvar : Text → Text → Text → Text → Hub F → Handled F
  unfolding set_fields
  set_cvar conn id name v hub = elim (find_cvar hub.con name) [
    | none ↦ reply conn id (set_fields hub.con name false false) hub
    | some cv ↦
        if is_readonly cv.flags
        then reply conn id (set_fields hub.con name true false) hub
        else let (con', ok) = set_cvar_override fl hub.con name v in
          reply conn id (set_fields con' name true ok) (with_console con' hub)
  ]

  exec_line : Text → Text → Text → Hub F → Handled F
  exec_line conn id l hub =
      let (con', r) = execute fl callback hub.con l in
      reply conn id
        ((codes "ok", js.bool_node r.ok)
            ∷ (if is_nil r.output then [] else (codes "output", js.text_node r.output) ∷ [])
          ++ (if is_nil r.error then [] else (codes "error", js.text_node r.error) ∷ []))
        (with_console con' hub)

  -- The loop over `msg["topics"]`: what was done before an exception stays.
  change_topics : Bool → List J → List Text → List Text × Bool
  change_topics subscribe [] topics = (topics, false)
  change_topics subscribe (t ∷ ts') topics = elim (js.text_of t) [
    | none ↦ (topics, true)
    | some s ↦
        change_topics subscribe ts'
          (if subscribe then insert_topic s topics else erase_topic s topics)
  ]

  subscription : Bool → Text → J → Hub F → Handled F
  unfolding change_topics
  subscription subscribe conn msg hub = elim (find conn hub.clients.ws_clients) [
    | none ↦ record { hub = hub; threw = false }
    | some topics ↦ elim (js.member msg (codes "topics")) [
      | none ↦ record { hub = hub; threw = false }
      | some ts' ↦
          let (topics', threw) = change_topics subscribe (js.elements ts') topics in
          let clients' = record hub.clients {
            ws_clients = write conn topics' hub.clients.ws_clients;
          } in
          record { hub = record hub { clients = clients' }; threw = threw }
    ]
  ]

  -- `load_vox` with the name and the data of the message.
  upload_vox : Text → Text → Text → Text → Hub F → Handled F
  unfolding failure
  upload_vox conn id name b64 hub = elim (base64_decode b64) [
    | none ↦ reply conn id (failure (codes "load_vox: base64 decode failed")) hub
    | some bytes ↦
        if ltb max_vox_bytes (length bytes)
        then reply conn id (failure (codes "load_vox: file too large (max 16 MB)")) hub
        else reply conn id ((codes "ok", js.bool_node true) ∷ [])
            (record hub { uploads = hub.uploads ++ (name, bytes) ∷ [] })
  ]

  -- A key of the message, or the exception of `msg.value`.
  with_value : J → Text → Text → Hub F → (Text → Handled F) → Handled F
  with_value msg key default_value hub f = elim (js.value msg key default_value) [
    | none ↦ record { hub = hub; threw = true }
    | some v ↦ f v
  ]

  load_vox_message : Text → Text → J → Hub F → Handled F
  unfolding upload_vox failure with_value
  load_vox_message conn id msg hub =
      if not hub.upload_handler
      then reply conn id (failure (codes "no vox upload handler registered")) hub
      else with_value msg (codes "name") (codes "unknown.vox") hub
          (λ name. with_value msg (codes "data") [] hub (λ b64. upload_vox conn id name b64 hub))

  -- The branches on the type of the message.
  dispatch_message : Text → Text → Text → J → Hub F → Handled F
  unfolding list_cvars list_commands get_cvar set_cvar exec_line subscription load_vox_message
      failure with_value
  dispatch_message type id conn msg hub =
      if text_eq type (codes "list_cvars")
      then list_cvars conn id hub
      else if text_eq type (codes "list_commands")
      then list_commands conn id hub
      else if text_eq type (codes "get_cvar")
      then with_value msg (codes "name") [] hub (λ name. get_cvar conn id name hub)
      else if text_eq type (codes "set_cvar")
      then with_value msg (codes "name") [] hub
          (λ name. with_value msg (codes "value") [] hub (λ v. set_cvar conn id name v hub))
      else if text_eq type (codes "exec")
      then with_value msg (codes "line") [] hub (λ l. exec_line conn id l hub)
      else if text_eq type (codes "subscribe")
      then subscription true conn msg hub
      else if text_eq type (codes "unsubscribe")
      then subscription false conn msg hub
      else if text_eq type (codes "load_vox")
      then load_vox_message conn id msg hub
      else reply conn id (failure (codes "unknown message type: " ++ type)) hub

  -- `HandleMessage`
  pub handle_message : Text → Text → Hub F → Handled F
  unfolding dispatch_message with_value
  handle_message conn text hub = elim (js.parse text) [
    | none ↦ record { hub = hub; threw = false }
    | some msg ↦
        with_value msg (codes "type") [] hub
          (λ type. with_value msg (codes "id") [] hub (λ id. dispatch_message type id conn msg hub))
  ]
