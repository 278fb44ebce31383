-- ===== src/Server/Sessions/Laws.antt =====
-- engine/console/ConsoleServer.cpp, `SessionValid`: the sessions it leaves, and its answer.
use voxhammer.Server.Sessions.{Session, Sessions, session_valid, erase_key, seconds_between}
use voxhammer.Base.{
  refl, [], false, ltb, text_eq_iff, find-write, is_nil, text_eq, inl, inr, ◌∷◌, Bool-cases,
  Option-cases, arith, ◌≤◌, some, true, write, find, ◌≡◌, Text, ℕ, List,
}

pub find-erase_key {ℓ} :
    {V : Type ℓ} (k : Text) (m : List (Text × V)) (j : Text) (v : V)
    → find j (erase_key k m) ≡ some v
    → (w : V) × (find j m ≡ some w)
unfolding erase_key find
find-erase_key k [] j v e = absurd (ground arith)
find-erase_key k ((i, w) ∷ m) j v e = elim (Bool-cases (text_eq i j)) [
  | inl f ↦ (w, rw f refl)
  | inr f ↦ elim (Bool-cases (text_eq i k)) [
    | inl g ↦ (v, rw f (rw g at e))
    | inr g ↦
        let rest : find j (erase_key k m) ≡ some v = rw (g, f) at e in
        let (x, h) = find-erase_key k m j v rest in (x, rw f h)
  ]
]

find-written :
    (token j : Text) (s v : Session) (m : Sessions)
    → find j (write token s m) ≡ some v
    → (w : Session) × (find j m ≡ some w)
find-written token j s v m e = elim (Option-cases (find j m)) [
  | inr (w, f) ↦ (w, f)
  | inl f ↦ absurd (ground (arith, e, f, find-write token j s m, text_eq_iff token j))
]

pub session_valid-find :
    (ttl now : ℕ) (token : Text) (m : Sessions) (j : Text) (v : Session)
    → find j (session_valid ttl now token m).0 ≡ some v
    → (w : Session) × (find j m ≡ some w)
unfolding session_valid
session_valid-find ttl now token m j v e = elim (Bool-cases (is_nil token)) [
  | inl f ↦ (v, rw f at e)
  | inr f ↦ elim (Option-cases (find token m)) [
    | inl g ↦ (v, rw (f, g) at e)
    | inr (s, g) ↦ elim (Bool-cases (ltb ttl (seconds_between s.last_active now))) [
      | inl h ↦ find-erase_key token m j v (rw (f, g, h) at e)
      | inr h ↦ find-written token j (record s { last_active = now }) v m (rw (f, g, h) at e)
    ]
  ]
]

pub session_valid-live :
    (ttl now : ℕ) (token : Text) (m : Sessions)
    → (session_valid ttl now token m).1 ≡ true
    → (s : Session) × (find token m ≡ some s) × (seconds_between s.last_active now ≤ ttl)
unfolding session_valid
session_valid-live ttl now token m e = elim (Bool-cases (is_nil token)) [
  | inl f ↦ let bad : false ≡ true = rw f at e in absurd (ground arith)
  | inr f ↦ elim (Option-cases (find token m)) [
    | inl g ↦ let bad : false ≡ true = rw (f, g) at e in absurd (ground arith)
    | inr (s, g) ↦ elim (Bool-cases (ltb ttl (seconds_between s.last_active now))) [
      | inl h ↦ let bad : false ≡ true = rw (f, g, h) at e in absurd (ground arith)
      | inr h ↦ (s, g, ground (arith, h))
    ]
  ]
]
