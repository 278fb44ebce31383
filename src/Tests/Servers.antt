-- ===== src/Tests/Servers.antt =====
-- engine/console: the server and its passwords at small inputs.
use voxhammer.Server.Login.Locked.{login_section-locked}
use voxhammer.Server.Login.Sections.{
  run_sections, erase_at, pending_at, resume, Pending, arrive, finish_login, Logins, Section,
  login_section,
}
use voxhammer.Server.Base64.{base64_decode}
use voxhammer.Server.Base64.Laws.{base64_encode, base64_decode-base64_encode}
use voxhammer.Server.Hashing.{hash_password, verify_password}
use voxhammer.Server.Hashing.Laws.{verify_password-hash_password}
use voxhammer.Server.Line.{cut_line, drop_return, is_quit, Round, line_client}
use voxhammer.Server.Line.Split.{
  join, AllRunning, queued_of, commands_of, lines_of, stream, line_client-queued,
}
use voxhammer.Server.Sessions.{
  Session, session_valid, cookie_value, after_first, strip_prefix, until_semicolon, origin_allowed,
}
use voxhammer.Server.Login.{
  LoginConfig, LoginState, LoginRequest, password, rate_of, refused, opened, handle_login,
  check_password, accept_login, reject_login, lockout_for,
}
use voxhammer.Server.Login.Laws.{Attempt, run_logins, AnyOpens, run_logins-AnyOpens}
use voxhammer.Server.Login.Throttle.{Bounded, handle_login-opened}
use voxhammer.Server.Clients.{Upgrade, ws_connect, query_param, ws_ready}
use voxhammer.Server.Clients.Admission.{
  Door, login, upgrade, Admitted, door_step, upgrade_client, run_door, run_door-Admitted,
}
use voxhammer.Server.Lifecycle.{Host, Config, Life}
use voxhammer.Base.{
  write, assign, zero, ◌^◌, refl, arith, some, ◌*◌, ◌↔◌, ◌∷◌, ◌⊎◌, suc, [], false, find, none,
  text_eq, true, ℕ, ◌≡◌, Text, List, codes,
}

base64_decode-base64_encode_example :
    base64_decode (base64_encode (104 ∷ 0 ∷ 255 ∷ [])) ≡ some (104 ∷ 0 ∷ 255 ∷ [])
base64_decode-base64_encode_example =
    base64_decode-base64_encode (104 ∷ 0 ∷ 255 ∷ []) (omega arith, (omega arith, (omega arith, tt)))

verify_password-hash_password_example :
    (verify_password (codes "pw") (hash_password (codes "px")) ≡ true) ↔ (◌≡◌ {A = ℕ} b'w' b'x')
verify_password-hash_password_example =
    verify_password-hash_password (codes "p") [] b'w' b'x' (omega arith) (omega arith)

abbrev running : Round
running = record { running = true; answer = some (codes "ok\n") }

abbrev rounds : ℕ → List Round
rounds zero = []
rounds (suc n) = running ∷ rounds n

rounds-AllRunning : (n : ℕ) → AllRunning (rounds n)
rounds-AllRunning zero = tt
rounds-AllRunning (suc n) = (refl, rounds-AllRunning n)

line_client-queued_example :
    queued_of (
      line_client text_eq
        (codes "pw")
        (rounds 20)
        (stream (codes "pw\r\nhe" ∷ codes "lp\n\nqu" ∷ codes "it\nx\n" ∷ [])))
    ≡ codes "help" ∷ []
unfolding text_eq join cut_line drop_return commands_of lines_of is_quit
line_client-queued_example =
    line_client-queued text_eq (codes "pw") (codes "pw\r") (codes "help\n\nquit\nx\n") (rounds 20)
      (codes "pw\r\nhe" ∷ codes "lp\n\nqu" ∷ codes "it\nx\n" ∷ []) (rounds-AllRunning 20)
      (omega arith) refl

abbrev config : LoginConfig
config = record {
  password_hash = codes "pw";
  fails_for_lockout = 1;
  lockout_seconds = 60;
  tls = false;
  port = 27960;
}

abbrev fresh : LoginState
fresh = record { sessions = []; rate = []; total_fails = 0; force_unbind = false }

abbrev request : Text → LoginRequest
request pw = record { addr = codes "a"; origin = none; body = password pw }

abbrev attempt : Attempt
attempt = record { now = 7; token = codes "t"; request = request (codes "pw") }

abbrev session : Session
session = record { created = 7; last_active = 7; source = codes "a" }

run_logins-AnyOpens_example :
    AnyOpens text_eq config (attempt ∷ []) (codes "t") session
    ⊎ (find (codes "t") [] ≡ some session)
unfolding text_eq run_logins handle_login check_password accept_login find assign origin_allowed
run_logins-AnyOpens_example =
    run_logins-AnyOpens text_eq config (attempt ∷ []) fresh (codes "t") session refl

fresh-Bounded : Bounded text_eq config 0 fresh
unfolding find
fresh-Bounded addr = omega arith

handle_login-opened_example :
    let (st', answer) =
      handle_login text_eq config (2000 * 10 ^ 9) (codes "t") (request (codes "pw")) fresh in
    (answer ≡ opened (codes "t"))
    × (find (codes "t") st'.sessions
        ≡ some
            (record { created = 2000 * 10 ^ 9; last_active = 2000 * 10 ^ 9; source = codes "a" }))
    × ((rate_of (codes "a") st'.rate).fails ≡ 0)
unfolding text_eq handle_login check_password accept_login find assign origin_allowed
handle_login-opened_example =
    handle_login-opened text_eq config 0 (2000 * 10 ^ 9) (codes "t") (codes "a") (codes "pw") none
      fresh fresh-Bounded (omega arith) refl refl refl

abbrev guess : Pending
guess = record { now = 0; token = codes "t"; request = request (codes "x") }

abbrev guessing : Logins
guessing = record { login_state = fresh; pending = guess ∷ [] }

-- Another address comes in and is refused its password.
abbrev stranger : LoginRequest
stranger = record { addr = codes "b"; origin = none; body = password (codes "y") }

abbrev strangers : List Section
strangers = arrive 3 (codes "u") stranger ∷ resume 0 ∷ []

login_section-locked_example :
    let l =
      run_sections text_eq config strangers (login_section text_eq config (resume 0) guessing).0 in
    let r = login_section text_eq config (arrive 5 (codes "v") (request (codes "pw"))) l in
    (r ≡ (l, some (refused 403))) ⊎ (r ≡ (l, some (refused 429)))
unfolding text_eq login_section finish_login check_password lockout_for find pending_at erase_at
    reject_login
login_section-locked_example =
    login_section-locked text_eq config 0 guess guessing strangers 5 (codes "v")
      (request (codes "pw")) refl refl (omega arith) tt ((λ e. omega arith), tt) refl (omega arith)

abbrev closed_door : Door
closed_door = record { login_state = fresh; clients = record { ws_clients = []; written = [] } }

abbrev browser : Upgrade
browser = record {
  conn = codes "c";
  origin = none;
  cookie = some (codes "vox_session=t; x=y");
  query = some (codes "t");
}

run_door-Admitted_example :
    Admitted
      (λ qs name. qs)
      text_eq
      config
      3600
      closed_door
      (upgrade 9 browser ∷ login attempt ∷ [])
      (codes "c")
unfolding text_eq run_door door_step upgrade_client ws_connect query_param session_valid ws_ready
    handle_login check_password accept_login find assign write cookie_value after_first strip_prefix
    until_semicolon origin_allowed
run_door-Admitted_example =
    run_door-Admitted (λ qs name. qs) text_eq config 3600 closed_door refl refl
      (upgrade 9 browser ∷ login attempt ∷ []) (codes "c") [] refl

abbrev settings : Config
settings = record {
  bind_address = codes "127.0.0.1";
  http_port = 27960;
  line_port = 27961;
  password_hash = codes "pw";
  enable_tls = false;
  cert_dir = [];
  session_ttl_seconds = 3600;
  fails_for_lockout = 5;
  lockout_seconds = 60;
}

abbrev idle : Life
idle = record {
  running = false;
  config = settings;
  context = none;
  cert_path = [];
  fingerprint = [];
  ttl_seconds = 3600;
  tls = false;
  port = 27960;
  line_sock = none;
  line_thread = false;
  line_workers = 0;
  line_run = false;
  wsa_started = false;
  log_sink = false;
  change_sink = false;
}

abbrev machine : Host
machine = record {
  have_tls = false;
  sodium_init = true;
  cert_file = λ dir. dir;
  exists = λ path. false;
  generate = λ path. codes "00:11";
  read_fingerprint = λ path. none;
  mg_start = λ opts. true;
  wsa_startup = true;
  open_socket = true;
  bind_and_listen = λ addr port. true;
}
