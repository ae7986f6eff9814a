-- ===== src/Main/Authority.antt =====
-- What a message on the command topic must bring before it does anything.
use forge_key.Prelude.{
  ◌≡◌, ◌⊎◌, inl, inr, refl, true, Option, none, some, List, [], ◌∷◌, Text, codes, is_empty, text_eq,
  pos, Bool-cases, Option-cases, if_cases, if_both, if◌then◌else◌,
}
use forge_key.Json.{Conversions}
use forge_key.Command.Replay.{load_replay_cache}
use forge_key.Command.Auth.{Libraries, Device, Error, field}
use forge_key.Command.Validate.{validate, command_error, canonical_error}
use forge_key.Lock.State.{Lock}
use forge_key.Lock.Unlock.{handle_unlock_command}
use forge_key.Lock.Authority.{IsAuthority, handle_unlock_command_sound}
use forge_key.Main.Indicator.{Message, Numbers}
use forge_key.Main.Commands.{
  Flags, Action, rejected, parse_failed, Machine, Moment, text_of, perform_lock, perform_common,
  perform, remembered, on_command_message, is_any, is_support, perform_ble,
}

module _ (lib : Libraries) (flags : Flags) (nums : Numbers) (json : Conversions) where
  -- The lock is as it was, or an unlock command brought a token with the authority to unlock it.
  abbrev pub IsUntouched : Device → Text → Message → Lock → Lock → Type 0
  IsUntouched d cmd m l after =
      (after ≡ l)
      ⊎ (text_eq cmd (codes "unlock") ≡ true)
        × IsAuthority lib (record d { mac = l.mac_address }) (text_of m.fields (codes "jwt"))
            (pos 0) (codes "unlock")

  perform_lock-IsUntouched :
      (d : Device) (t : Moment) (cmd : Text) (m : Message) (l : Lock)
      → IsUntouched d cmd m l (perform_lock lib flags nums json d t cmd m.fields l).0
  unfolding perform_lock
  perform_lock-IsUntouched d t cmd m l =
      let token = text_of m.fields (codes "jwt") in
      let r = handle_unlock_command lib d token (pos 0) t.unlock_now t.unlock_later l in
      let sound = handle_unlock_command_sound lib d token (pos 0) t.unlock_now t.unlock_later l in
      let P : Lock × List Action → Type 0 = λ p. IsUntouched d cmd m l p.0 in
      if_cases P (text_eq cmd (codes "unlock"))
        (λ unlock. if_both P (is_empty token) (inl refl) (elim (Bool-cases r.1) [
          | inl accepted ↦ inr (unlock, (sound.1 accepted).0)
          | inr refused ↦ inl (sound.0 refused)
        ]))
        (λ other.
          if_both P (is_any cmd (codes "lockout" ∷ codes "clear_lockout" ∷ codes "init_ack" ∷ []))
            (inl refl) (inl refl))

  perform-IsUntouched :
      (d : Device) (t : Moment) (cmd : Text) (m : Message) (actor : Text) (s : Machine)
      → IsUntouched d cmd m s.lock (perform lib flags nums json d t cmd m actor s).0.lock
  unfolding perform
  perform-IsUntouched d t cmd m actor s =
      let P : Machine × List Action → Type 0 = λ p. IsUntouched d cmd m s.lock p.0.lock in
      if_both P (is_support cmd) (inl refl)
        (after (perform_common lib flags nums json t cmd m actor))
    where
      after :
          (o : Option (List Action))
          → let l = perform_lock lib flags nums json d t cmd m.fields s.lock in
            let r : Machine × List Action = elim o [
              | some actions ↦ (s, actions)
              | none ↦
                  if flags.is_lock
                  then (record s { lock = l.0 }, l.1)
                  else (s, perform_ble flags cmd m.fields)
            ] in
            IsUntouched d cmd m s.lock r.0.lock
      after (some actions) = inl refl
      after none =
          if_both (λ (p : Machine × List Action). IsUntouched d cmd m s.lock p.0.lock) flags.is_lock
            (perform_lock-IsUntouched d t cmd m s.lock) (inl refl)

  -- A message on the command topic that is no JSON text, or that `validate` refuses, changes neither
  -- the lock nor support mode and does nothing but report its error. And whatever the message, the
  -- lock is changed only by an accepted command `unlock`, whose token has the authority to unlock
  -- this device besides.
  pub on_command_message_sound :
      (d : Device) (t : Moment) (message : Option Message) (s : Machine)
      → let (after, actions) = on_command_message lib flags nums json d t message s in
        ((message ≡ none) × (after ≡ s) × (actions ≡ parse_failed ∷ []))
        ⊎ ((m : Message) × (message ≡ some m)
            × (((e : Error) × (command_error lib d (load_replay_cache s.stored s.cache) m.fields
                    ≡ some e)
                  × (after.lock ≡ s.lock)
                  × (after.support ≡ s.support)
                  × (actions ≡ rejected e ∷ []))
                ⊎ ((command_error lib d (load_replay_cache s.stored s.cache) m.fields ≡ none)
                    × IsUntouched d (field (codes "cmd") m.fields) m s.lock after.lock)))
  unfolding on_command_message validate canonical_error remembered
  on_command_message_sound d t none s = inl (refl, refl, refl)
  on_command_message_sound d t (some m) s =
      elim (Option-cases (command_error lib d (load_replay_cache s.stored s.cache) m.fields)) [
        | inl accepted ↦ inr (
          m,
          refl,
          inr (
            accepted,
            rw accepted (perform-IsUntouched d t (field (codes "cmd") m.fields) m _ _),
          ),
        )
        | inr (e, refused) ↦
            inr (m, refl, inl (e, refused, rw refused refl, rw refused refl, rw refused refl))
      ]
