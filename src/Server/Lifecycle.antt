-- ===== src/Server/Lifecycle.antt =====
-- engine/console/ConsoleServer.cpp: `Start`, `Stop`, the TCP listener and the HTTP handler. What
-- libsodium, OpenSSL, civetweb, the file system and the sockets answer is a record; the log and what
-- the handlers send besides the status are not modelled.
pub mod Starting
pub mod Laws
use mathlib.Core.Option
use voxhammer.Base.Int.{pos}
use voxhammer.Console.Numbers.{int_to_text}
use voxhammer.Base.{
  text_eq, codes, some, ◌&&◌, ◌+◌, false, is_nil, none, true, ◌||◌, [], not, ◌∷◌, if◌then◌else◌,
  ◌++◌, Text, ℕ, List, Option, Bool,
}

-- `ConsoleServer::Config`
pub record Config : Type 0 where
  pub bind_address : Text
  pub http_port : ℕ
  pub line_port : ℕ
  pub password_hash : Text
  pub enable_tls : Bool
  pub cert_dir : Text
  pub session_ttl_seconds : ℕ
  pub fails_for_lockout : ℕ
  pub lockout_seconds : ℕ

-- The options of `mg_start` that are not constant.
pub record Options : Type 0 where
  pub listening_ports : Text
  pub ssl_certificate : Text

-- The answers of the libraries and of the system.
pub record Host : Type 0 where
  pub have_tls : Bool
  pub sodium_init : Bool
  pub cert_file : Text → Text
  pub exists : Text → Bool
  -- `GenerateSelfSignedCert`, empty on failure.
  pub generate : Text → Text
  -- The fingerprint of a certificate that could be read.
  pub read_fingerprint : Text → Option Text
  pub mg_start : Options → Bool
  pub wsa_startup : Bool
  pub open_socket : Bool
  pub bind_and_listen : Text → ℕ → Bool

-- The members of the server and of `Impl` that `Start` and `Stop` work on.
pub record Life : Type 0 where
  pub running : Bool
  pub config : Config
  pub context : Option Options
  pub cert_path : Text
  pub fingerprint : Text
  pub ttl_seconds : ℕ
  pub tls : Bool
  pub port : ℕ
  pub line_sock : Option (Text × ℕ)
  pub line_thread : Bool
  pub line_workers : ℕ
  pub line_run : Bool
  pub wsa_started : Bool
  pub log_sink : Bool
  pub change_sink : Bool

module _ (host : Host) where
  -- `StartLineServer`
  pub start_line_server : Life → Life
  start_line_server s =
      if not host.wsa_startup
      then s
      else if not host.open_socket
      then record s { wsa_started = true }
      else if not (host.bind_and_listen s.config.bind_address s.config.line_port)
      then record s { wsa_started = true }
      else record s {
        wsa_started = true;
        line_sock = some (s.config.bind_address, s.config.line_port);
        line_run = true;
        line_thread = true;
      }

  -- The certificate: generated where there is none; none is left if that fails.
  load_cert : Life → Option Life
  load_cert s =
      let path = host.cert_file s.config.cert_dir in
      if not (host.exists path)
      then (if is_nil (host.generate path)
          then none
          else some (record s { cert_path = path; fingerprint = host.generate path; tls = true }))
      else some (record s {
        cert_path = path;
        fingerprint = Option.get_or (host.read_fingerprint path) s.fingerprint;
        tls = true;
      })

  -- From the options to the end of `Start`.
  bind_server : Life → Text → Life × Bool
  bind_server s port_spec =
      let opts : Options = record {
        listening_ports = port_spec;
        ssl_certificate = if s.tls then s.cert_path else [];
      } in
      if not (host.mg_start opts) then (record s { context = none }, false) else (
        start_line_server
            (record s { context = some opts; log_sink = true; change_sink = true; running = true }),
        true,
      )

  -- `Start`
  pub start : Config → Life → Life × Bool
  unfolding load_cert bind_server
  start cfg s =
      let set_up = record s { config = cfg } in
      let known = record set_up { ttl_seconds = cfg.session_ttl_seconds; port = cfg.http_port } in
      let port_spec = cfg.bind_address ++ (b':' ∷ int_to_text (pos cfg.http_port)) in
      if is_nil cfg.password_hash
      then (set_up, false)
      else if not host.sodium_init
      then (set_up, false)
      else if host.have_tls && cfg.enable_tls
      then elim (load_cert known) [
        | none ↦ (record known { cert_path = host.cert_file cfg.cert_dir; fingerprint = [] }, false)
        | some s' ↦ bind_server s' (port_spec ++ b's' ∷ [])
      ]
      else bind_server known port_spec

  -- A round of `LineAcceptLoop`, with what `accept` gave; and whether the loop goes on.
  pub accept_round : Bool → Life → Life × Bool
  accept_round accepted s =
      if not s.line_run
      then (s, false)
      else if accepted
      then (record s { line_workers = s.line_workers + 1 }, true)
      else (s, true)

  -- `RotateCert`
  pub rotate_cert : Life → Life
  rotate_cert s =
      if not host.have_tls || is_nil s.cert_path
      then s
      else record s { fingerprint = host.generate s.cert_path }

-- `Stop`, which waits for the threads.
unfoldable pub stop : Life → Life
stop s = if not s.running then s else record s {
  log_sink = false;
  change_sink = false;
  context = none;
  line_run = false;
  line_sock = none;
  line_thread = false;
  line_workers = 0;
  wsa_started = false;
  running = false;
}

-- Which answer `HttpHandler` gives to a path: a page, a login, or 404.
pub data Page : Type 0 where
  index_html console_js console_css login not_found : Page

unfoldable pub http_handler : Option Text → Page
http_handler local_uri =
    let uri = Option.get_or local_uri (codes "/") in
    if text_eq uri (codes "/") || text_eq uri (codes "/index.html")
    then index_html
    else if text_eq uri (codes "/console.js")
    then console_js
    else if text_eq uri (codes "/console.css")
    then console_css
    else if text_eq uri (codes "/api/login")
    then login
    else not_found
