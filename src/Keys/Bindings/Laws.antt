-- ===== src/Keys/Bindings/Laws.antt =====
-- What a key does after a binding is set or removed.
use voxhammer.Keys.Bindings.{
  IsUnique, any_matches, default_bindings, remove_binding, fire, matches, remove_matching,
  set_binding, dispatch, KeyBinding,
}
use voxhammer.Base.{
  All, sym, inr, inl, Bool-cases, ◌||◌, refl, [], text_eq_iff, arith, false, ◌==◌, ◌∷◌, ◌&&◌,
  text_eq, if◌then◌else◌, ◌≡◌, Bool, ℕ, List, Text,
}

-- After a binding is set, its key and modifiers fire its target, and every other key does what it
-- did before.
pub dispatch-set_binding :
    (b : KeyBinding) (es : List KeyBinding) (exec : Bool) (key : Text) (modifiers : ℕ)
    → dispatch exec key modifiers (set_binding b es)
      ≡ (if matches key modifiers b then fire exec b.target else dispatch exec key modifiers es)
unfolding dispatch set_binding
dispatch-set_binding b [] exec key modifiers = refl
dispatch-set_binding b (e ∷ es) exec key modifiers = ground (
  arith,
  dispatch-set_binding b es exec key modifiers,
  text_eq_iff e.key b.key,
  text_eq_iff e.key key,
  text_eq_iff b.key key,
)

dispatch-remove_matching :
    (k : Text) (m : ℕ) (es : List KeyBinding) (exec : Bool) (key : Text) (modifiers : ℕ)
    → dispatch exec key modifiers (remove_matching k m es)
      ≡ (if text_eq k key && m == modifiers then (false, []) else dispatch exec key modifiers es)
unfolding dispatch remove_matching
dispatch-remove_matching k m [] exec key modifiers = ground arith
dispatch-remove_matching k m (e ∷ es) exec key modifiers = ground (
  arith,
  dispatch-remove_matching k m es exec key modifiers,
  text_eq_iff e.key k,
  text_eq_iff e.key key,
  text_eq_iff k key,
)

dispatch-any_matches :
    (key : Text) (modifiers : ℕ) (es : List KeyBinding) (exec : Bool)
    → (dispatch exec key modifiers es).0 ≡ any_matches key modifiers es
unfolding dispatch any_matches fire
dispatch-any_matches key modifiers [] exec = refl
dispatch-any_matches key modifiers (e ∷ es) exec =
    ground (arith, dispatch-any_matches key modifiers es exec)

dispatch_none :
    (key : Text) (modifiers : ℕ) (es : List KeyBinding) (exec : Bool)
    → any_matches key modifiers es ≡ false
    → dispatch exec key modifiers es ≡ (false, [])
unfolding dispatch any_matches
dispatch_none key modifiers [] exec h = refl
dispatch_none key modifiers (e ∷ es) exec h = ground (arith, dispatch_none key modifiers es exec)

-- `Remove` says whether its key and modifiers had fired a binding. Afterwards they fire none, and
-- every other key does what it did before.
pub dispatch-remove_binding :
    (k : Text) (m : ℕ) (es : List KeyBinding) (exec : Bool) (key : Text) (modifiers : ℕ)
    → ((remove_binding k m es).1 ≡ (dispatch exec k m es).0)
      × (dispatch exec key modifiers (remove_binding k m es).0 ≡ (
          if text_eq k key && m == modifiers then (false, []) else dispatch exec key modifiers es))
unfolding remove_binding
dispatch-remove_binding k m es exec key modifiers = elim (Bool-cases (any_matches k m es)) [
  | inl e ↦
      rw (e, dispatch-any_matches k m es exec)
        (sym e, dispatch-remove_matching k m es exec key modifiers)
  | inr e ↦
      rw (e, dispatch-any_matches k m es exec)
        (sym e, ground (arith, dispatch_none key modifiers es exec, text_eq_iff k key))
]

any_matches-set_binding :
    (b : KeyBinding) (es : List KeyBinding) (key : Text) (modifiers : ℕ)
    → any_matches key modifiers (set_binding b es)
      ≡ (matches key modifiers b || any_matches key modifiers es)
unfolding any_matches set_binding
any_matches-set_binding b [] key modifiers = refl
any_matches-set_binding b (e ∷ es) key modifiers = ground (
  arith,
  any_matches-set_binding b es key modifiers,
  text_eq_iff e.key b.key,
  text_eq_iff e.key key,
  text_eq_iff b.key key,
)

pub set_binding-IsUnique :
    (b : KeyBinding) (es : List KeyBinding) → IsUnique es → IsUnique (set_binding b es)
unfolding set_binding any_matches
set_binding-IsUnique b [] u = (refl, tt)
set_binding-IsUnique b (e ∷ es) (n, u) = ground (
  arith,
  any_matches-set_binding b es e.key e.modifiers,
  set_binding-IsUnique b es u,
  text_eq_iff e.key b.key,
  text_eq_iff b.key e.key,
)

any_matches-remove_matching :
    (k : Text) (m : ℕ) (es : List KeyBinding) (key : Text) (modifiers : ℕ)
    → any_matches key modifiers es ≡ false
    → any_matches key modifiers (remove_matching k m es) ≡ false
unfolding any_matches remove_matching
any_matches-remove_matching k m [] key modifiers h = refl
any_matches-remove_matching k m (e ∷ es) key modifiers h =
    ground (arith, any_matches-remove_matching k m es key modifiers)

remove_matching-IsUnique :
    (k : Text) (m : ℕ) (es : List KeyBinding) → IsUnique es → IsUnique (remove_matching k m es)
unfolding remove_matching
remove_matching-IsUnique k m [] u = tt
remove_matching-IsUnique k m (e ∷ es) (n, u) = ground (
  arith,
  any_matches-remove_matching k m es e.key e.modifiers n,
  remove_matching-IsUnique k m es u,
)

pub remove_binding-IsUnique :
    (k : Text) (m : ℕ) (es : List KeyBinding) → IsUnique es → IsUnique (remove_binding k m es).0
unfolding remove_binding
remove_binding-IsUnique k m es u = ground (arith, remove_matching-IsUnique k m es u)

pub default_bindings-IsUnique : IsUnique default_bindings
unfolding default_bindings any_matches text_eq
default_bindings-IsUnique = (
  refl,
  (refl, (refl, (refl, (refl, (refl, (refl, (refl, (refl, (refl, (refl, (refl, tt))))))))))),
)

-- What holds of a binding and of each binding with its target holds of all bindings after `Set`.
pub All-set_binding :
    (P : KeyBinding → Type 0) (b : KeyBinding) (es : List KeyBinding)
    → ((e : KeyBinding) → P e → P (record e { target = b.target }))
    → P b
    → All P es
    → All P (set_binding b es)
unfolding set_binding
All-set_binding P b [] keep p h = (p, tt)
All-set_binding P b (e ∷ es) keep p (q, h) = elim (Bool-cases (matches b.key b.modifiers e)) [
  | inl m ↦ rw (m, set_binding) (keep e q, h)
  | inr m ↦ rw (m, set_binding) (q, All-set_binding P b es keep p h)
]
