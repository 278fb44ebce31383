-- ===== src/Server/Login/Throttle.antt =====
-- engine/console/ConsoleServer.cpp, `HandleLogin`: lockouts, and the way out of them.
use voxhammer.Server.Sessions.{origin_allowed}
use voxhammer.Server.Login.{
  no_password, not_text, accept_login, check_password, count_failure, reject_login, handle_login,
  lockout_for, rate_of, LoginConfig, LoginState, LoginRequest, Body, Rate, password, opened,
  refused,
}
use voxhammer.Base.{
  le→leb, refl, ap, text_eq_refl, ◌∙◌, find, false, ◌&&◌, is_nil, true, ltb, not, inr, inl,
  Bool-cases, zero, ◌-◌, suc, arith, find-assign, text_eq, if◌then◌else◌, ◌*◌, ◌+◌, ◌≡◌, assign,
  ◌^◌, ◌≤◌, Bool, ℕ, some, Option, List, Text,
}

abbrev pub second : ℕ
second = 10 ^ 9

power_bounds : (k : ℕ) → k ≤ 5 → (1 ≤ 2 ^ k) × (2 ^ k ≤ 32)
power_bounds zero h = omega arith
power_bounds (suc zero) h = omega arith
power_bounds (suc (suc zero)) h = omega arith
power_bounds (suc (suc (suc zero))) h = omega arith
power_bounds (suc (suc (suc (suc zero)))) h = omega arith
power_bounds (suc (suc (suc (suc (suc zero))))) h = omega arith
power_bounds (suc (suc (suc (suc (suc (suc k)))))) h = absurd (omega arith)

scaled_bounds : (l p : ℕ) → 1 ≤ p → p ≤ 32 → (l ≤ l * p) × (l * p ≤ l * 32)
scaled_bounds l p a b = grind arith

lockout_for-bounds :
    (cfg : LoginConfig) (fails : ℕ)
    → (cfg.lockout_seconds ≤ lockout_for cfg fails)
      × (lockout_for cfg fails ≤ cfg.lockout_seconds * 32)
unfolding lockout_for
lockout_for-bounds cfg fails =
    let over = fails - cfg.fails_for_lockout in
    let k = if ltb 5 over then 5 else over in
    let (a, b) = power_bounds k (ground arith) in scaled_bounds cfg.lockout_seconds (2 ^ k) a b

count_failure-bounds :
    (cfg : LoginConfig) (now : ℕ) (r : Rate)
    → r.lockout_until ≤ now + cfg.lockout_seconds * 32 * second
    → (count_failure cfg now r).lockout_until ≤ now + cfg.lockout_seconds * 32 * second
unfolding count_failure
count_failure-bounds cfg now r h = ground (arith, lockout_for-bounds cfg (r.fails + 1))

count_failure-lockout :
    (cfg : LoginConfig) (now : ℕ) (r : Rate)
    → cfg.fails_for_lockout ≤ r.fails + 1
    → (count_failure cfg now r).lockout_until ≡ now + lockout_for cfg (r.fails + 1) * second
unfolding count_failure
count_failure-lockout cfg now r h = rw (le→leb cfg.fails_for_lockout (r.fails + 1) h) refl

pub rate_of-assign :
    (addr other : Text) (r : Rate) (rate : List (Text × Rate))
    → rate_of other (assign addr r rate) ≡ (if text_eq addr other then r else rate_of other rate)
rate_of-assign addr other r rate = rw (find-assign addr other r rate) (ground arith)

rate_of-assign_self :
    (addr : Text) (r : Rate) (rate : List (Text × Rate)) → rate_of addr (assign addr r rate) ≡ r
rate_of-assign_self addr r rate =
    let e : (if text_eq addr addr then r else rate_of addr rate) ≡ r =
      rw (text_eq_refl addr) refl in
    rate_of-assign addr addr r rate ∙ e

find-assign_self :
    {V : Type 0} (k : Text) (v : V) (m : List (Text × V)) → find k (assign k v m) ≡ some v
find-assign_self k v m =
    let e : (if text_eq k k then some v else find k m) ≡ some v = rw (text_eq_refl k) refl in
    find-assign k k v m ∙ e

module _ (verify : Text → Text → Bool) (cfg : LoginConfig) where
  -- No lockout reaches further than 32 lockout periods from now.
  abbrev pub Bounded : ℕ → LoginState → Type 0
  Bounded now st =
      (addr : Text) → (rate_of addr st.rate).lockout_until ≤ now + cfg.lockout_seconds * 32 * second

  reject_login-Bounded :
      (now : ℕ) (addr : Text) (st : LoginState)
      → Bounded now st
      → Bounded now (reject_login cfg now addr st).0
  unfolding reject_login
  reject_login-Bounded now addr st b other =
      let r = count_failure cfg now (rate_of addr st.rate) in
      let limit = count_failure-bounds cfg now (rate_of addr st.rate) (b addr) in
      rw (rate_of-assign addr other r st.rate)
        (elim (Bool-cases (text_eq addr other)) [ inl e ↦ rw e limit | inr e ↦ rw e (b other) ])

  accept_login-Bounded :
      (now : ℕ) (addr token : Text) (st : LoginState)
      → Bounded now st
      → Bounded now (accept_login now addr token st).0
  unfolding accept_login
  accept_login-Bounded now addr token st b other =
      let r = record (rate_of addr st.rate) { fails = 0 } in
      rw (rate_of-assign addr other r st.rate)
        (elim (Bool-cases (text_eq addr other)) [ inl e ↦ rw e (b addr) | inr e ↦ rw e (b other) ])

  check_password-Bounded :
      (now : ℕ) (token addr : Text) (body : Body) (st : LoginState)
      → Bounded now st
      → Bounded now (check_password verify cfg now token addr body st).0
  unfolding check_password
  check_password-Bounded now token addr no_password st b = reject_login-Bounded now addr st b
  check_password-Bounded now token addr not_text st b = b
  check_password-Bounded now token addr (password p) st b =
      elim (Bool-cases (not (is_nil p) && verify p cfg.password_hash)) [
        | inl f ↦ rw f (accept_login-Bounded now addr token st b)
        | inr f ↦ rw f (reject_login-Bounded now addr st b)
      ]

  -- If no lockout reaches further than 32 lockout periods from now, none does after a login request
  -- that comes now.
  pub handle_login-Bounded :
      (now : ℕ) (token : Text) (req : LoginRequest) (st : LoginState)
      → Bounded now st
      → Bounded now (handle_login verify cfg now token req st).0
  unfolding handle_login
  handle_login-Bounded now token req st b =
      elim (Bool-cases (origin_allowed cfg.tls cfg.port req.origin)) [
        | inr f ↦ rw f b
        | inl f ↦ elim (Bool-cases (ltb now (rate_of req.addr st.rate).lockout_until)) [
          | inl g ↦ rw (f, g) b
          | inr g ↦ rw (f, g) (check_password-Bounded now token req.addr req.body st b)
        ]
      ]

  -- From any state in which no lockout reaches further than 32 lockout periods from now: once these
  -- have gone by, a request from an allowed origin with the right password, which is not empty, opens
  -- a session with its token and clears the failures of its address.
  pub handle_login-opened :
      (now later : ℕ) (token addr p : Text) (origin : Option Text) (st : LoginState)
      → Bounded now st
      → now + cfg.lockout_seconds * 32 * second ≤ later
      → origin_allowed cfg.tls cfg.port origin ≡ true
      → is_nil p ≡ false
      → verify p cfg.password_hash ≡ true
      → let req : LoginRequest = record { addr = addr; origin = origin; body = password p } in
        let (st', answer) = handle_login verify cfg later token req st in
        (answer ≡ opened token)
        × (find token st'.sessions
            ≡ some (record { created = later; last_active = later; source = addr }))
        × ((rate_of addr st'.rate).fails ≡ 0)
  unfolding handle_login check_password accept_login
  handle_login-opened now later token addr p origin st b h o n v =
      let limit = b addr in
      let free : ltb later (rate_of addr st.rate).lockout_until ≡ false = ground (arith, limit) in
      rw (o, free, n, v)
        (
          refl,
          find-assign_self token (record { created = later; last_active = later; source = addr })
              st.sessions,
          ap (λ r. r.fails)
              (rate_of-assign_self addr (record (rate_of addr st.rate) { fails = 0 }) st.rate),
        )

  pub check_password_failed :
      (now : ℕ) (token addr : Text) (body : Body) (st : LoginState)
      → (check_password verify cfg now token addr body st).1 ≡ refused 401
      → (check_password verify cfg now token addr body st).0 ≡ (reject_login cfg now addr st).0
  unfolding check_password reject_login accept_login
  check_password_failed now token addr no_password st e = refl
  check_password_failed now token addr not_text st e = cc
  check_password_failed now token addr (password p) st e = ground arith

  pub reject_login-lockout :
      (now : ℕ) (addr : Text) (st : LoginState)
      → cfg.fails_for_lockout ≤ (rate_of addr st.rate).fails + 1
      → (rate_of addr (reject_login cfg now addr st).0.rate).lockout_until
        ≡ now + lockout_for cfg ((rate_of addr st.rate).fails + 1) * second
  unfolding reject_login count_failure
  reject_login-lockout now addr st h =
      let r = count_failure cfg now (rate_of addr st.rate) in
      ap (λ x. x.lockout_until) (rate_of-assign_self addr r st.rate)
      ∙ count_failure-lockout cfg now (rate_of addr st.rate) h
