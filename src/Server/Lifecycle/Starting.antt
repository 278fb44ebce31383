-- ===== src/Server/Lifecycle/Starting.antt =====
-- engine/console/ConsoleServer.cpp: what `Start` opens, and leaves closed where it fails.
use voxhammer.Base.Int.{pos}
use voxhammer.Console.Numbers.{int_to_text}
use voxhammer.Server.Lifecycle.{
  Config, Options, Host, Life, start_line_server, load_cert, bind_server, start,
}
use voxhammer.Base.{
  refl, Option-cases, ◌&&◌, ◌∷◌, ◌++◌, not, inl, inr, [], Bool-cases, if◌then◌else◌, ◌≢◌, is_nil,
  false, none, some, true, arith, ◌≡◌, Text,
}

-- Nothing is open: no listener, no thread, no library, no sink.
abbrev pub IsClosed : Life → Type 0
IsClosed s =
    (s.context ≡ none)
    × (s.line_sock ≡ none)
    × (s.line_thread ≡ false)
    × (s.line_workers ≡ 0)
    × (s.line_run ≡ false)
    × (s.wsa_started ≡ false)
    × (s.log_sink ≡ false)
    × (s.change_sink ≡ false)

-- The server listens with a password, and both sinks are set.
abbrev pub IsServing : Life → Type 0
IsServing s =
    (s.context ≢ none)
    × (is_nil s.config.password_hash ≡ false)
    × (s.log_sink ≡ true)
    × (s.change_sink ≡ true)
    × (s.line_run ≡ true → s.wsa_started ≡ true)

abbrev pub IsConsistent : Life → Type 0
IsConsistent s = (s.running ≡ false → IsClosed s) × (s.running ≡ true → IsServing s)

module _ (host : Host) where
  idle-IsConsistent : (s : Life) → s.running ≡ false → IsClosed s → IsConsistent s
  idle-IsConsistent s r h = ((λ e. h), (λ e. absurd (ground (arith, r, e))))

  start_line_server-IsServing :
      (s : Life)
      → s.running ≡ true
      → s.line_run ≡ false
      → IsServing s
      → ((start_line_server host s).running ≡ true) × IsServing (start_line_server host s)
  unfolding start_line_server
  start_line_server-IsServing s r q h = ground (arith, r, q, h)

  bind_server-IsConsistent :
      (s : Life) (port_spec : Text)
      → s.running ≡ false
      → is_nil s.config.password_hash ≡ false
      → IsClosed s
      → IsConsistent (bind_server host s port_spec).0
  unfolding bind_server
  bind_server-IsConsistent s port_spec r p h =
      let opts : Options = record {
        listening_ports = port_spec;
        ssl_certificate = if s.tls then s.cert_path else [];
      } in
      let (_, a, b, w, quiet, l, u, v) = h in
      elim (Bool-cases (host.mg_start opts)) [
        | inr f ↦
            rw (bind_server, f)
              (idle-IsConsistent (record s { context = none }) r (refl, a, b, w, quiet, l, u, v))
        | inl f ↦
            let up : Life = record s {
              context = some opts;
              log_sink = true;
              change_sink = true;
              running = true;
            } in
            let (run, serving) =
              start_line_server-IsServing up refl quiet (
                (λ e. ground (arith, e)),
                p,
                refl,
                refl,
                (λ e. absurd (ground (arith, e, quiet))),
              ) in
            rw (bind_server, f) ((λ e. absurd (ground (arith, run, e))), (λ e. serving))
      ]

  load_cert-IsClosed :
      (s c : Life)
      → s.running ≡ false
      → is_nil s.config.password_hash ≡ false
      → IsClosed s
      → load_cert host s ≡ some c
      → (c.running ≡ false) × (is_nil c.config.password_hash ≡ false) × IsClosed c
  unfolding load_cert
  load_cert-IsClosed s c r p h e = ground (arith, r, p, h, e)

  load_cert-bind_server :
      (s : Life) (port_spec : Text) (c : Life)
      → s.running ≡ false
      → is_nil s.config.password_hash ≡ false
      → IsClosed s
      → load_cert host s ≡ some c
      → IsConsistent (bind_server host c port_spec).0
  load_cert-bind_server s port_spec c r p h e =
      let (r', p', h') = load_cert-IsClosed s c r p h e in
      bind_server-IsConsistent c port_spec r' p' h'

  pub start-IsConsistent :
      (cfg : Config) (s : Life) → s.running ≡ false → IsClosed s → IsConsistent (start host cfg s).0
  unfolding start
  start-IsConsistent cfg s r h =
      let set_up = record s { config = cfg } in
      let known = record set_up { ttl_seconds = cfg.session_ttl_seconds; port = cfg.http_port } in
      let port_spec = cfg.bind_address ++ (b':' ∷ int_to_text (pos cfg.http_port)) in
      elim (Bool-cases (is_nil cfg.password_hash)) [
        | inl f ↦ rw (start, f) (idle-IsConsistent set_up r h)
        | inr f ↦ elim (Bool-cases (not host.sodium_init)) [
          | inl g ↦ rw (start, f, g) (idle-IsConsistent set_up r h)
          | inr g ↦ elim (Bool-cases (host.have_tls && cfg.enable_tls)) [
            | inr k ↦ rw (start, f, g, k) (bind_server-IsConsistent known port_spec r f h)
            | inl k ↦ elim (Option-cases (load_cert host known)) [
              | inl e ↦
                  rw (start, f, g, k, e)
                    (idle-IsConsistent
                      (record known { cert_path = host.cert_file cfg.cert_dir; fingerprint = [] }) r
                      h)
              | inr (c, e) ↦
                  rw (start, f, g, k, e)
                    (load_cert-bind_server known (port_spec ++ b's' ∷ []) c r f h e)
            ]
          ]
        ]
      ]

  bind_server-running :
      (s : Life) (port_spec : Text)
      → s.running ≡ true
      → (bind_server host s port_spec).0.running ≡ true
  unfolding bind_server start_line_server
  bind_server-running s port_spec r = ground (arith, r)

  load_cert-running : (s c : Life) → s.running ≡ true → load_cert host s ≡ some c → c.running ≡ true
  unfolding load_cert
  load_cert-running s c r e = ground (arith, r, e)

  -- A start never makes a server that runs into one that does not.
  pub start-running :
      (cfg : Config) (s : Life) → s.running ≡ true → (start host cfg s).0.running ≡ true
  unfolding start
  start-running cfg s r =
      let known = record s {
        config = cfg;
        ttl_seconds = cfg.session_ttl_seconds;
        port = cfg.http_port;
      } in
      let port_spec = cfg.bind_address ++ (b':' ∷ int_to_text (pos cfg.http_port)) in
      elim (Bool-cases (is_nil cfg.password_hash)) [
        | inl f ↦ rw (start, f) r
        | inr f ↦ elim (Bool-cases (not host.sodium_init)) [
          | inl g ↦ rw (start, f, g) r
          | inr g ↦ elim (Bool-cases (host.have_tls && cfg.enable_tls)) [
            | inr k ↦ rw (start, f, g, k) (bind_server-running known port_spec r)
            | inl k ↦ elim (Option-cases (load_cert host known)) [
              | inl e ↦ rw (start, f, g, k, e) r
              | inr (c, e) ↦
                  rw (start, f, g, k, e)
                    (bind_server-running c (port_spec ++ b's' ∷ []) (load_cert-running known c r e))
            ]
          ]
        ]
      ]
