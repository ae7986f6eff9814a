-- ===== src/Command/Envelope.antt =====
-- What an envelope has, and the search of the replay cache, apart from the words of the code.
use forge_key.Prelude.{
  All, List, [], ◌∷◌, Text, codes, is_empty, text_eq, text_eq-eq, text_eq_self, subst, sym,
  Bool-cases, ◌≢◌, ◌&&◌, ◌≡◌, refl, Bool, true, false, arith, ◌⊎◌, inl, inr,
}
use forge_key.Json.{Document}
use forge_key.Command.Replay.{ReplayEntry, any_match, matches}
use forge_key.Command.Auth.{field}
use forge_key.Command.Validate.{lacks_field}

-- The six fields of the envelope are there and not empty.
pub record HasAll (doc : Document) : Type 0 where
  pub cmd : is_empty (field (codes "cmd") doc) ≡ false
  pub command_id : is_empty (field (codes "command_id") doc) ≡ false
  pub issued_at : is_empty (field (codes "issued_at") doc) ≡ false
  pub expires_at : is_empty (field (codes "expires_at") doc) ≡ false
  pub nonce : is_empty (field (codes "nonce") doc) ≡ false
  pub actor : is_empty (field (codes "actor") doc) ≡ false

pub lacks_field-HasAll : (doc : Document) → lacks_field doc ≡ false → HasAll doc
lacks_field-HasAll doc h = record {
  cmd = ground arith;
  command_id = ground arith;
  issued_at = ground arith;
  expires_at = ground arith;
  nonce = ground arith;
  actor = ground arith;
}

pub HasAll-lacks_field : (doc : Document) → HasAll doc → lacks_field doc ≡ false
HasAll-lacks_field doc h =
    rw (h.cmd, h.command_id, h.issued_at, h.expires_at, h.nonce, h.actor) refl

pub some_authenticator : (a b : Bool) → (a && b) ≡ false → (a ≡ false) ⊎ (b ≡ false)
some_authenticator true b h = inr h
some_authenticator false b h = inl refl

pub no_authenticator : (a b : Bool) → (a ≡ false) ⊎ (b ≡ false) → (a && b) ≡ false
no_authenticator true b (inl h) = cc
no_authenticator true b (inr h) = h
no_authenticator false b h = refl

-- An entry of the cache that has neither the id nor the nonce.
abbrev pub IsOther : Text → Text → ReplayEntry → Type 0
IsOther id nonce e = (e.command_id ≢ id) × (e.nonce ≢ nonce)

text_eq-differs : (a b : Text) → text_eq a b ≡ false → b ≢ a
text_eq-differs a b h same =
    let equal : text_eq a b ≡ true = subst (λ t. text_eq a t ≡ true) (sym same) (text_eq_self a) in
    cc

differs-text_eq : (a b : Text) → b ≢ a → text_eq a b ≡ false
differs-text_eq a b h = elim (Bool-cases (text_eq a b)) [
  | inl e ↦ absurd (h (sym (text_eq-eq a b e)))
  | inr e ↦ e
]

no_match :
    (id nonce : Text) (e : ReplayEntry)
    → is_empty id ≡ false
    → is_empty nonce ≡ false
    → matches id nonce e ≡ false
    → IsOther id nonce e
no_match id nonce e i n h = (
  text_eq-differs id e.command_id (ground (arith, i, n, h)),
  text_eq-differs nonce e.nonce (ground (arith, i, n, h)),
)

pub any_match-IsOther :
    (id nonce : Text) (es : List ReplayEntry)
    → is_empty id ≡ false
    → is_empty nonce ≡ false
    → any_match id nonce es ≡ false
    → All (IsOther id nonce) es
unfolding any_match
any_match-IsOther id nonce [] i n h = tt
any_match-IsOther id nonce (e ∷ es) i n h = elim (Bool-cases (matches id nonce e)) [
  | inl found ↦ cc (rw found at h)
  | inr other ↦ (no_match id nonce e i n other, any_match-IsOther id nonce es i n (rw other at h))
]

pub IsOther-any_match :
    (id nonce : Text) (es : List ReplayEntry)
    → All (IsOther id nonce) es
    → any_match id nonce es ≡ false
unfolding any_match
IsOther-any_match id nonce [] h = refl
IsOther-any_match id nonce (e ∷ es) ((other_id, other_nonce), h) = ground (
  arith,
  differs-text_eq id e.command_id other_id,
  differs-text_eq nonce e.nonce other_nonce,
  IsOther-any_match id nonce es h,
)
