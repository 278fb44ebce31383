-- ===== src/Server/Messages/Laws.antt =====
-- engine/console/ConsoleServer.cpp, `HandleMessage`: read-only cvars.
use voxhammer.Console.Floats.{Floats}
use voxhammer.Console.Registry.{CVar, find_cvar, is_readonly}
use voxhammer.Console.Execute.{Callback}
use voxhammer.Console.Setting.Override.{set_cvar_override-find_cvar}
use voxhammer.Server.Base64.{base64_decode}
use voxhammer.Console.Execute.Safety.{CallbacksKeep, execute-Kept}
use voxhammer.Server.Messages.{
  Json, Hub, Handled, reply, with_console, list_cvars, list_commands, get_cvar, set_cvar, exec_line,
  subscription, upload_vox, max_vox_bytes, load_vox_message, with_value, dispatch_message,
  handle_message,
}
use voxhammer.Base.{
  refl, arith, ap, ◌∙◌, false, length, sym, [], find, if◌then◌else◌, ltb, not, text_eq_iff, Bool,
  Bool-cases, codes, text_eq, some, true, inr, inl, Option-cases, ◌≡◌, Text,
}

module _ (fl : Floats) (js : Json fl.F) (callback : Callback fl.F) (ts : Text) (key : Text)
    (cv : CVar fl.F) where
  open fl use {F}
  open js use {J}

  -- What holds of both branches holds of the conditional.
  abbrev Holds : Handled F → Type 0
  Holds r = find_cvar r.hub.con key ≡ some cv

  if_elim : (b : Bool) (x y : Handled F) → Holds x → Holds y → Holds (if b then x else y)
  if_elim true x y h k = h
  if_elim false x y h k = k

  abbrev Kept : Hub F → Type 0
  Kept hub = find_cvar hub.con key ≡ some cv

  with_value-Kept :
      (msg : J) (k d : Text) (hub : Hub F) (f : Text → Handled F)
      → Kept hub
      → ((v : Text) → Kept (f v).hub)
      → Kept (with_value fl js callback ts msg k d hub f).hub
  unfolding with_value find_cvar
  with_value-Kept msg k d hub f h g = elim (Option-cases (js.value msg k d)) [
    | inl e ↦ rw (with_value, e) h
    | inr (v, e) ↦ rw (with_value, e) (g v)
  ]

  module _ (readonly : is_readonly cv.flags ≡ true) where
    set_cvar-Kept :
        (conn id name v : Text) (hub : Hub F)
        → Kept hub
        → Kept (set_cvar fl js callback ts conn id name v hub).hub
    unfolding set_cvar reply with_console
    set_cvar-Kept conn id name v hub h = elim (Option-cases (find_cvar hub.con name)) [
      | inl e ↦ rw (set_cvar, e) h
      | inr (other, e) ↦ elim (Bool-cases (is_readonly other.flags)) [
        | inl f ↦ rw (set_cvar, e, f) h
        | inr f ↦ elim (Bool-cases (text_eq name key)) [
          | inl g ↦
              let names : name ≡ key = (text_eq_iff name key).0 g in
              let found : some other ≡ some cv = sym e ∙ ap (find_cvar hub.con) names ∙ h in
              absurd (ground (arith, found, f, readonly))
          | inr g ↦ rw (set_cvar, e, f) (set_cvar_override-find_cvar fl hub.con name key v g ∙ h)
        ]
      ]
    ]

    subscription-con :
        (subscribe : Bool) (conn : Text) (msg : J) (hub : Hub F)
        → (subscription fl js callback ts subscribe conn msg hub).hub.con ≡ hub.con
    unfolding subscription
    subscription-con subscribe conn msg hub =
        elim (Option-cases (find conn hub.clients.ws_clients)) [
          | inl e ↦ rw (subscription, e) refl
          | inr (topics, e) ↦ elim (Option-cases (js.member msg (codes "topics"))) [
            | inl f ↦ rw (subscription, e, f) refl
            | inr (ts', f) ↦ rw (subscription, e, f) refl
          ]
        ]

    get_cvar-con :
        (conn id name : Text) (hub : Hub F)
        → (get_cvar fl js callback ts conn id name hub).hub.con ≡ hub.con
    unfolding get_cvar reply
    get_cvar-con conn id name hub = elim (Option-cases (find_cvar hub.con name)) [
      | inl e ↦ rw (get_cvar, e) refl
      | inr (c, e) ↦ rw (get_cvar, e) refl
    ]

    upload_vox-con :
        (conn id name b64 : Text) (hub : Hub F)
        → (upload_vox fl js callback ts conn id name b64 hub).hub.con ≡ hub.con
    unfolding upload_vox reply
    upload_vox-con conn id name b64 hub = elim (Option-cases (base64_decode b64)) [
      | inl e ↦ rw (upload_vox, e) refl
      | inr (bytes, e) ↦ elim (Bool-cases (ltb max_vox_bytes (length bytes))) [
        | inl f ↦ rw (upload_vox, e, f) refl
        | inr f ↦ rw (upload_vox, e, f) refl
      ]
    ]

    load_vox_message-Kept :
        (conn id : Text) (msg : J) (hub : Hub F)
        → Kept hub
        → Kept (load_vox_message fl js callback ts conn id msg hub).hub
    unfolding load_vox_message reply
    load_vox_message-Kept conn id msg hub h = elim (Bool-cases (not hub.upload_handler)) [
      | inl e ↦ rw (load_vox_message, e) h
      | inr e ↦
          rw (load_vox_message, e)
            (with_value-Kept msg (codes "name") (codes "unknown.vox") hub _ h (λ name.
              with_value-Kept msg (codes "data") [] hub _ h
                (λ b64. rw (upload_vox-con conn id name b64 hub) h)))
    ]

    module _ (keep : CallbacksKeep fl callback key cv) where
      exec_line-Kept :
          (conn id l : Text) (hub : Hub F)
          → Kept hub
          → Kept (exec_line fl js callback ts conn id l hub).hub
      unfolding exec_line reply with_console
      exec_line-Kept conn id l hub h = execute-Kept fl callback key cv readonly keep hub.con l h

      dispatch_message-Kept :
          (type id conn : Text) (msg : J) (hub : Hub F)
          → Kept hub
          → Kept (dispatch_message fl js callback ts type id conn msg hub).hub
      unfolding dispatch_message list_cvars list_commands reply
      dispatch_message-Kept type id conn msg hub h =
          if_elim (text_eq type (codes "list_cvars")) _ _ h (
            if_elim (text_eq type (codes "list_commands")) _ _ h (
              if_elim (text_eq type (codes "get_cvar")) _ _
                (with_value-Kept msg (codes "name") [] hub _ h
                  (λ name. rw (get_cvar-con conn id name hub) h))
                (if_elim (text_eq type (codes "set_cvar")) _ _
                  (with_value-Kept msg (codes "name") [] hub _ h (λ name.
                    with_value-Kept msg (codes "value") [] hub _ h
                      (λ v. set_cvar-Kept conn id name v hub h)))
                  (if_elim (text_eq type (codes "exec")) _ _
                    (with_value-Kept msg (codes "line") [] hub _ h
                      (λ l. exec_line-Kept conn id l hub h))
                    (if_elim (text_eq type (codes "subscribe")) _ _
                      (rw (subscription-con true conn msg hub) h)
                      (if_elim (text_eq type (codes "unsubscribe")) _ _
                        (rw (subscription-con false conn msg hub) h)
                        (if_elim (text_eq type (codes "load_vox")) _ _
                          (load_vox_message-Kept conn id msg hub h) h)))))))

      -- No message of a client changes a read-only cvar, if the callbacks of the commands do not.
      pub handle_message-is_readonly :
          (conn text : Text) (hub : Hub F)
          → find_cvar hub.con key ≡ some cv
          → find_cvar (handle_message fl js callback ts conn text hub).hub.con key ≡ some cv
      unfolding handle_message
      handle_message-is_readonly conn text hub h = elim (Option-cases (js.parse text)) [
        | inl e ↦ rw (handle_message, e) h
        | inr (msg, e) ↦
            rw (handle_message, e)
              (with_value-Kept msg (codes "type") [] hub _ h (λ type.
                with_value-Kept msg (codes "id") [] hub _ h
                  (λ id. dispatch_message-Kept type id conn msg hub h)))
      ]
