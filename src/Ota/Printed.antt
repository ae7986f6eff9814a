-- ===== src/Ota/Printed.antt =====
-- A URL put together from its parts, and split again.
use forge_key.Prelude.{
  ℕ, suc, Bool, true, false, ◌||◌, Option, none, some, [], ◌∷◌, ◌++◌, ℤ, if◌then◌else◌, length,
  take, drop, Text, codes, is_empty, text_eq, index_of, ◌≡◌, refl, ap, arith, ◌==◌, Bool-cases,
  Option-cases, inl, inr,
}
use forge_key.Ota.Strings.{index_of_text, starts_with}
use forge_key.Ota.Url.{to_u16, host_url, split_url, split_rest}

abbrev pub scheme : Bool → Text
scheme true = codes "https"
scheme false = codes "http"

-- Neither a colon nor a slash.
abbrev pub plain : Text → Bool
plain [] = true
plain (c ∷ cs) = if c == b':' || c == b'/' then false else plain cs

-- host:digits, or the host alone
abbrev pub host_port : Text → Option Text → Text
host_port host none = host
host_port host (some digits) = host ++ b':' ∷ digits

-- The port that a split gives: the number of the digits, or the scheme's own.
abbrev pub port_of : (Text → ℤ) → Bool → Option Text → ℕ
port_of to_int true none = 443
port_of to_int false none = 80
port_of to_int tls (some digits) = to_u16 (to_int digits)

abbrev pub plain_port : Option Text → Bool
plain_port none = true
plain_port (some digits) = plain digits

index_of_first :
    (c : ℕ) (t r : Text) → index_of c t ≡ none → index_of c (t ++ c ∷ r) ≡ some (length t)
unfolding index_of
index_of_first c [] r h = ground arith
index_of_first c (x ∷ xs) r h = elim (Bool-cases (x == c)) [
  | inl e ↦ cc (simp e at h)
  | inr e ↦ elim (Option-cases (index_of c xs)) [
    | inr (k, f) ↦ cc (rw (e, f, index_of) at h)
    | inl f ↦ simp (e, index_of_first c xs r f)
  ]
]

take-length : (t r : Text) → take (length t) (t ++ r) ≡ t
take-length [] r = refl
take-length (c ∷ cs) r = ap (◌∷◌ c) (take-length cs r)

drop-length : (t r : Text) → drop (length t) (t ++ r) ≡ r
drop-length [] r = refl
drop-length (c ∷ cs) r = drop-length cs r

drop-suc-length : (c : ℕ) (t r : Text) → drop (suc (length t)) (t ++ c ∷ r) ≡ r
drop-suc-length c [] r = refl
drop-suc-length c (x ∷ xs) r = drop-suc-length c xs r

index_of_later :
    (d c : ℕ) (cs : Text) → (c == d) ≡ false → index_of d cs ≡ none → index_of d (c ∷ cs) ≡ none
unfolding index_of
index_of_later d c cs e f = simp (e, f)

plain_cons :
    (c : ℕ) (cs : Text)
    → plain (c ∷ cs) ≡ true
    → ((c == b':') ≡ false) × ((c == b'/') ≡ false) × (plain cs ≡ true)
plain_cons c cs h = ground arith

plain-index : (t : Text) → plain t ≡ true → (index_of b':' t ≡ none) × (index_of b'/' t ≡ none)
unfolding index_of
plain-index [] h = (refl, refl)
plain-index (c ∷ cs) h =
    let (colon, slash, rest) = plain_cons c cs h in
    let (f, g) = plain-index cs rest in
    (index_of_later b':' c cs colon f, index_of_later b'/' c cs slash g)

plain-append : (s t : Text) → plain s ≡ true → plain t ≡ true → index_of b'/' (s ++ b':' ∷ t) ≡ none
unfolding index_of
plain-append [] t h k = index_of_later b'/' b':' t refl (plain-index t k).1
plain-append (c ∷ cs) t h k =
    let (colon, slash, rest) = plain_cons c cs h in
    index_of_later b'/' c (cs ++ b':' ∷ t) slash (plain-append cs t rest k)

split_scheme :
    (to_int : Text → ℤ) (tls : Bool) (rest : Text)
    → split_url to_int (scheme tls ++ codes "://" ++ rest) ≡ split_rest to_int tls rest
unfolding split_url text_eq index_of_text starts_with
split_scheme to_int true rest = refl
split_scheme to_int false rest = refl

host_port-slash :
    (host : Text) (port : Option Text)
    → plain host ≡ true
    → plain_port port ≡ true
    → index_of b'/' (host_port host port) ≡ none
host_port-slash host none h k = (plain-index host h).1
host_port-slash host (some digits) h k = plain-append host digits h k

host_url_lem :
    (to_int : Text → ℤ) (tls : Bool) (host : Text) (port : Option Text) (path : Text)
    → plain host ≡ true
    → host_url to_int tls (host_port host port) path
      ≡ record { tls = tls; host = host; port = port_of to_int tls port; path = path }
unfolding host_url
host_url_lem to_int true host none path h = rw ((plain-index host h).0, host_url) refl
host_url_lem to_int false host none path h = rw ((plain-index host h).0, host_url) refl
host_url_lem to_int tls host (some digits) path h =
    let e = index_of_first b':' host digits (plain-index host h).0 in
    rw (e, host_url) (rw (take-length host (b':' ∷ digits), drop-suc-length b':' host digits) refl)

-- A URL of a scheme, a host without colons and slashes that is not empty, a port if any, and a path
-- is split into just these: the port is the number of the digits modulo 2^16, or 443 for https and
-- 80 for http where none is written.
pub split_url-print :
    (to_int : Text → ℤ) (tls : Bool) (host : Text) (port : Option Text) (path : Text)
    → plain host ≡ true
    → plain_port port ≡ true
    → is_empty host ≡ false
    → split_url to_int (scheme tls ++ codes "://" ++ (host_port host port ++ b'/' ∷ path))
      ≡ some (record { tls = tls; host = host; port = port_of to_int tls port; path = b'/' ∷ path })
unfolding split_rest
split_url-print to_int tls host port path h k l =
    let e = index_of_first b'/' (host_port host port) path (host_port-slash host port h k) in
    rw (split_scheme to_int tls (host_port host port ++ b'/' ∷ path)) (
      rw (e, split_rest)
        (rw
          (
            take-length (host_port host port) (b'/' ∷ path),
            drop-length (host_port host port) (b'/' ∷ path),
            host_url_lem to_int tls host port (b'/' ∷ path) h,
            l,
          )
          refl))
