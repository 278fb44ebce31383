-- ===== src/Server/Login.antt =====
-- engine/console/ConsoleServer.cpp, `ConsoleServer::HandleLogin`. The password hash, the random bytes
-- and the JSON parser are parameters; the log and the bodies of the answers are not modelled.
pub mod Laws
pub mod Throttle
pub mod Sections
pub mod Locked
use mathlib.Core.Option
use voxhammer.Server.Sessions.{origin_allowed, Session, Sessions}
use voxhammer.Base.{
  assign, find, ltb, ◌&&◌, is_nil, ◌^◌, leb, not, ◌*◌, ◌||◌, if◌then◌else◌, write, ◌+◌, ◌-◌, Bool,
  ℕ, none, some, Option, List, Text, codes,
}

pub record Rate : Type 0 where
  pub fails : ℕ
  pub lockout_until : ℕ

pub record LoginConfig : Type 0 where
  pub password_hash : Text
  pub fails_for_lockout : ℕ
  pub lockout_seconds : ℕ
  pub tls : Bool
  pub port : ℕ

pub record LoginState : Type 0 where
  pub sessions : Sessions
  pub rate : List (Text × Rate)
  pub total_fails : ℕ
  pub force_unbind : Bool

-- The request body as JSON: no JSON or no password, a password, or one that is no string, at which
-- `get<std::string>()` throws.
pub data Body : Type 0 where
  no_password : Body
  password : Text → Body
  not_text : Body

pub record LoginRequest : Type 0 where
  pub addr : Text
  pub origin : Option Text
  pub body : Body

-- The status that is sent, with the token of a session that was opened; or the exception.
pub data Answer : Type 0 where
  refused : ℕ → Answer
  opened : Text → Answer
  threw : Answer

-- `impl_->rate[addr]`, which inserts a zero entry where there is none.
abbrev pub rate_of : Text → List (Text × Rate) → Rate
rate_of addr rate = Option.get_or (find addr rate) (record { fails = 0; lockout_until = 0 })

-- `lockout_seconds * (1 << (over > 5 ? 5 : over))`
unfoldable pub lockout_for : LoginConfig → ℕ → ℕ
lockout_for cfg fails =
    let over = fails - cfg.fails_for_lockout in
    cfg.lockout_seconds * 2 ^ (if ltb 5 over then 5 else over)

unfoldable pub count_failure : LoginConfig → ℕ → Rate → Rate
count_failure cfg now r =
    let fails = r.fails + 1 in
    record {
      fails = fails;
      lockout_until =
          if leb cfg.fails_for_lockout fails
          then now + lockout_for cfg fails * 10 ^ 9
          else r.lockout_until;
    }

-- From the failed authentication to the 401.
unfoldable pub reject_login : LoginConfig → ℕ → Text → LoginState → LoginState × Answer
reject_login cfg now addr st = (
  record st {
    rate = assign addr (count_failure cfg now (rate_of addr st.rate)) st.rate;
    total_fails = st.total_fails + 1;
    force_unbind = st.force_unbind || leb 20 (st.total_fails + 1);
  },
  refused 401,
)

unfoldable pub accept_login : ℕ → Text → Text → LoginState → LoginState × Answer
accept_login now addr token st = (
  record st {
    rate = assign addr (record (rate_of addr st.rate) { fails = 0 }) st.rate;
    sessions =
        assign token (record { created = now; last_active = now; source = addr }) st.sessions;
  },
  opened token,
)

module _ (verify : Text → Text → Bool) (cfg : LoginConfig) where
  unfoldable pub check_password : ℕ → Text → Text → Body → LoginState → LoginState × Answer
  check_password now token addr no_password st = reject_login cfg now addr st
  check_password now token addr (password p) st =
      if not (is_nil p) && verify p cfg.password_hash
      then accept_login now addr token st
      else reject_login cfg now addr st
  check_password now token addr not_text st = (st, threw)

  -- `HandleLogin`, at a time and with the token that a new session would get.
  unfoldable pub handle_login : ℕ → Text → LoginRequest → LoginState → LoginState × Answer
  unfolding check_password
  handle_login now token req st =
      if not (origin_allowed cfg.tls cfg.port req.origin)
      then (st, refused 403)
      else if ltb now (rate_of req.addr st.rate).lockout_until
      then (st, refused 429)
      else check_password now token req.addr req.body st
