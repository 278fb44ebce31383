-- ===== src/Server/Login/Locked.antt =====
-- engine/console/ConsoleServer.cpp, `HandleLogin`: lockouts, on the threads of the server.
use voxhammer.Server.Login.Throttle.{
  reject_login-lockout, check_password_failed, second, rate_of-assign,
}
use voxhammer.Server.Sessions.{origin_allowed}
use voxhammer.Server.Login.{
  Body, no_password, not_text, password, count_failure, lockout_for, accept_login, reject_login,
  refused, rate_of, check_password, LoginConfig, LoginRequest, LoginState,
}
use voxhammer.Base.{
  ◌&&◌, is_nil, ◌*◌, ◌∙◌, ap, lt→ltb, text_eq_iff, ◌+◌, refl, inl, inr, Bool-cases, Option-cases,
  arith, ◌≤◌, ◌⊎◌, ltb, false, not, text_eq, zero, ◌<◌, some, All, [], ◌≡◌, suc, ◌∷◌, Bool, List,
  Text, ℕ,
}
use voxhammer.Server.Login.Sections.{
  Pending, finish_login, Logins, Section, admit_login, erase_at, login_section, pending_at,
  run_sections, arrive, resume,
}

some_injective : {A : Type 0} (a b : A) → some a ≡ some b → a ≡ b
some_injective a b e = cc

module _ (verify : Text → Text → Bool) (cfg : LoginConfig) where
  -- No request of the address is pending, and its lockout is as given.
  abbrev pub IsLocked : Text → ℕ → Logins → Type 0
  IsLocked addr until l =
      All (λ p. text_eq p.request.addr addr ≡ false) l.pending
      × ((rate_of addr l.login_state.rate).lockout_until ≡ until)

  -- The arrivals of the address among the sections come before the time.
  abbrev pub AllBefore : ℕ → Text → List Section → Type 0
  AllBefore until addr [] = Unit {0}
  AllBefore until addr (arrive now token req ∷ xs) =
      (req.addr ≡ addr → now < until) × AllBefore until addr xs
  AllBefore until addr (resume at ∷ xs) = AllBefore until addr xs

  check_password-other :
      (now : ℕ) (token addr other : Text) (body : Body) (st : LoginState)
      → text_eq addr other ≡ false
      → rate_of other (check_password verify cfg now token addr body st).0.rate
        ≡ rate_of other st.rate
  unfolding check_password reject_login accept_login
  check_password-other now token addr other no_password st h =
      rate_of-assign addr other (count_failure cfg now (rate_of addr st.rate)) st.rate ∙ rw h refl
  check_password-other now token addr other not_text st h = refl
  check_password-other now token addr other (password p) st h =
      elim (Bool-cases (not (is_nil p) && verify p cfg.password_hash)) [
        | inl f ↦ rw f (
            rate_of-assign addr other (record (rate_of addr st.rate) { fails = 0 }) st.rate
            ∙ rw h refl)
        | inr f ↦ rw f (
            rate_of-assign addr other (count_failure cfg now (rate_of addr st.rate)) st.rate
            ∙ rw h refl)
      ]

  pending_at-other :
      (addr : Text) (i : ℕ) (ps : List Pending) (p : Pending)
      → All (λ q. text_eq q.request.addr addr ≡ false) ps
      → pending_at i ps ≡ some p
      → text_eq p.request.addr addr ≡ false
  unfolding pending_at
  pending_at-other addr i [] p h e = absurd (ground (arith, e))
  pending_at-other addr zero (q ∷ ps) p (a, h) e =
      let same : q ≡ p = some_injective q p e in rw (← same) a
  pending_at-other addr (suc i) (q ∷ ps) p (a, h) e = pending_at-other addr i ps p h e

  erase_at-other :
      (addr : Text) (i : ℕ) (ps : List Pending)
      → All (λ q. text_eq q.request.addr addr ≡ false) ps
      → All (λ q. text_eq q.request.addr addr ≡ false) (erase_at i ps)
  unfolding erase_at
  erase_at-other addr i [] h = tt
  erase_at-other addr zero (q ∷ ps) (a, h) = h
  erase_at-other addr (suc i) (q ∷ ps) (a, h) = (a, erase_at-other addr i ps h)

  resume-IsLocked :
      (addr : Text) (until i : ℕ) (l : Logins)
      → IsLocked addr until l
      → IsLocked addr until (login_section verify cfg (resume i) l).0
  unfolding login_section finish_login
  resume-IsLocked addr until i l (h, u) = elim (Option-cases (pending_at i l.pending)) [
    | inl e ↦ rw (login_section, e) (erase_at-other addr i l.pending h, u)
    | inr (p, e) ↦
        let other = pending_at-other addr i l.pending p h e in
        rw (login_section, e)
          (
            erase_at-other addr i l.pending h,
            ap (λ r. r.lockout_until)
                  (check_password-other p.now p.token p.request.addr addr p.request.body
                    l.login_state other)
                ∙ u,
          )
  ]

  admit_login-IsLocked :
      (addr : Text) (until now : ℕ) (token : Text) (req : LoginRequest) (l : Logins)
      → (req.addr ≡ addr → now < until)
      → IsLocked addr until l
      → IsLocked addr until (admit_login cfg now token req l).0
  unfolding admit_login
  admit_login-IsLocked addr until now token req l before (h, u) =
      elim (Bool-cases (origin_allowed cfg.tls cfg.port req.origin)) [
        | inr f ↦ rw f (h, u)
        | inl f ↦ elim (Bool-cases (ltb now (rate_of req.addr l.login_state.rate).lockout_until)) [
          | inl g ↦ rw (f, g) (h, u)
          | inr g ↦ elim (Bool-cases (text_eq req.addr addr)) [
            | inr n ↦ rw (f, g) ((n, h), u)
            | inl n ↦
                let same : req.addr ≡ addr = (text_eq_iff req.addr addr).0 n in
                let late : ltb now (rate_of addr l.login_state.rate).lockout_until ≡ false =
                  rw same at g in
                let soon = before same in absurd (ground (arith, late, soon, u))
          ]
        ]
      ]

  run_sections-IsLocked :
      (addr : Text) (until : ℕ) (xs : List Section) (l : Logins)
      → AllBefore until addr xs
      → IsLocked addr until l
      → IsLocked addr until (run_sections verify cfg xs l)
  unfolding run_sections login_section
  run_sections-IsLocked addr until [] l b h = h
  run_sections-IsLocked addr until (arrive now token req ∷ xs) l (soon, b) h =
      run_sections-IsLocked addr until xs (admit_login cfg now token req l).0 b
        (admit_login-IsLocked addr until now token req l soon h)
  run_sections-IsLocked addr until (resume i ∷ xs) l b h =
      run_sections-IsLocked addr until xs (login_section verify cfg (resume i) l).0 b
        (resume-IsLocked addr until i l h)

  admit_login-blocked :
      (addr : Text) (until later : ℕ) (token : Text) (req : LoginRequest) (l : Logins)
      → req.addr ≡ addr
      → later < until
      → IsLocked addr until l
      → (admit_login cfg later token req l ≡ (l, some (refused 403)))
        ⊎ (admit_login cfg later token req l ≡ (l, some (refused 429)))
  unfolding admit_login
  admit_login-blocked addr until later token req l same soon (h, u) =
      let ends : (rate_of req.addr l.login_state.rate).lockout_until ≡ until = rw same u in
      elim (Bool-cases (origin_allowed cfg.tls cfg.port req.origin)) [
        | inr f ↦ inl (rw f refl)
        | inl f ↦ inr (
            rw
              (
                f,
                lt→ltb later (rate_of req.addr l.login_state.rate).lockout_until
                    (omega (arith, ends, soon)),
              )
              refl)
      ]

  failed-IsLocked :
      (i : ℕ) (p : Pending) (l : Logins)
      → pending_at i l.pending ≡ some p
      → (login_section verify cfg (resume i) l).1 ≡ some (refused 401)
      → cfg.fails_for_lockout ≤ (rate_of p.request.addr l.login_state.rate).fails + 1
      → All (λ q. text_eq q.request.addr p.request.addr ≡ false) (erase_at i l.pending)
      → IsLocked p.request.addr
          (p.now + lockout_for cfg ((rate_of p.request.addr l.login_state.rate).fails + 1) * second)
          (login_section verify cfg (resume i) l).0
  unfolding login_section finish_login
  failed-IsLocked i p l e failed limit alone =
      let st = l.login_state in
      let addr = p.request.addr in
      let r = check_password verify cfg p.now p.token addr p.request.body st in
      let held : some r.1 ≡ some (refused 401) = rw (e, login_section) at failed in
      let code = some_injective r.1 (refused 401) held in
      rw (e, login_section)
        (
          alone,
          ap (λ t. (rate_of addr t.rate).lockout_until)
                (check_password_failed verify cfg p.now p.token addr p.request.body st code)
              ∙ reject_login-lockout verify cfg p.now addr st limit,
        )

  -- After a failed attempt that reaches the limit, while no other request of its address is between
  -- the two parts: whatever parts of other requests follow, of any address, if those of this address
  -- come before the lockout ends, a request of this address that comes before it ends is refused at
  -- once and changes nothing.
  pub login_section-locked :
      (i : ℕ) (p : Pending) (l : Logins) (xs : List Section) (later : ℕ) (token : Text)
      (req : LoginRequest)
      → pending_at i l.pending ≡ some p
      → (login_section verify cfg (resume i) l).1 ≡ some (refused 401)
      → cfg.fails_for_lockout ≤ (rate_of p.request.addr l.login_state.rate).fails + 1
      → All (λ q. text_eq q.request.addr p.request.addr ≡ false) (erase_at i l.pending)
      → AllBefore
          (p.now + lockout_for cfg ((rate_of p.request.addr l.login_state.rate).fails + 1) * second)
          p.request.addr
          xs
      → req.addr ≡ p.request.addr
      → later
        < p.now + lockout_for cfg ((rate_of p.request.addr l.login_state.rate).fails + 1) * second
      → let l' = run_sections verify cfg xs (login_section verify cfg (resume i) l).0 in
        (login_section verify cfg (arrive later token req) l' ≡ (l', some (refused 403)))
        ⊎ (login_section verify cfg (arrive later token req) l' ≡ (l', some (refused 429)))
  unfolding login_section
  login_section-locked i p l xs later token req e failed limit alone before same soon =
      let until =
        p.now + lockout_for cfg ((rate_of p.request.addr l.login_state.rate).fails + 1) * second in
      let start = failed-IsLocked i p l e failed limit alone in
      admit_login-blocked p.request.addr until later token req
        (run_sections verify cfg xs (login_section verify cfg (resume i) l).0) same soon
        (run_sections-IsLocked p.request.addr until xs (login_section verify cfg (resume i) l).0
          before start)
