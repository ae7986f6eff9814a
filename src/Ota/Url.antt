-- ===== src/Ota/Url.antt =====
-- `splitUrl`: scheme, host, port and path.
use forge_key.Prelude.{
  ℕ, suc, ◌+◌, ◌-◌, ◌%◌, Bool, true, false, Option, none, some, [], ◌∷◌, ℤ, pos, negsuc,
  if◌then◌else◌, take, drop, map, Text, codes, is_empty, text_eq, index_of, to_lower,
}
use forge_key.Ota.Strings.{index_of_text}

pub record Url : Type 0 where
  pub tls : Bool
  pub host : Text
  pub port : ℕ
  pub path : Text

-- (uint16_t) of a `long`
abbrev pub to_u16 : ℤ → ℕ
to_u16 (pos n) = n % 65536
to_u16 (negsuc n) = 65535 - n % 65536

-- Whether the scheme is one of the two, and asks for TLS.
abbrev scheme_tls : Text → Option Bool
scheme_tls s =
    if text_eq s (codes "https")
    then some true
    else if text_eq s (codes "http")
    then some false
    else none

-- What stands between the scheme and the path, and the path.
unfoldable pub host_url : (Text → ℤ) → Bool → Text → Text → Url
host_url to_int tls host_port path =
    let standard : ℕ = if tls then 443 else 80 in
    elim (index_of b':' host_port) [
      | none ↦ record { tls = tls; host = host_port; port = standard; path = path }
      | some i ↦ record {
        tls = tls;
        host = take i host_port;
        port = to_u16 (to_int (drop (suc i) host_port));
        path = path;
      }
    ]

unfoldable pub split_rest : (Text → ℤ) → Bool → Text → Option Url
unfolding host_url
split_rest to_int tls rest =
    let url : Url = elim (index_of b'/' rest) [
      | none ↦ host_url to_int tls rest (b'/' ∷ [])
      | some i ↦ host_url to_int tls (take i rest) (drop i rest)
    ] in
    if is_empty url.host then none else some url

unfoldable pub split_url : (Text → ℤ) → Text → Option Url
unfolding split_rest
split_url to_int url = elim (index_of_text (codes "://") url) [
  | none ↦ none
  | some i ↦ elim (scheme_tls (map to_lower (take i url))) [
    | none ↦ none
    | some tls ↦ split_rest to_int tls (drop (3 + i) url)
  ]
]
