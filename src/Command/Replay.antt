-- ===== src/Command/Replay.antt =====
-- The replay cache: a ring of sixteen accepted commands, and its text form in flash.
use forge_key.Prelude.{
  ℕ, suc, ◌+◌, ◌%◌, Bool, true, false, not, ◌&&◌, ◌||◌, Option, none, some, List, [], ◌∷◌, ◌++◌,
  ltb, leb, ◌==◌, if◌then◌else◌, length, take, drop, replicate, modify, Text, is_empty, text_eq,
  index_of,
}

abbrev pub replay_cache_size : ℕ
replay_cache_size = 16

abbrev pub replay_value_max : ℕ
replay_value_max = 72

pub record ReplayEntry : Type 0 where
  pub command_id : Text
  pub nonce : Text

-- g_replayCache, g_replayCount, g_replayNext and g_loaded
pub record Cache : Type 0 where
  pub slots : List ReplayEntry
  pub count : ℕ
  pub next : ℕ
  pub loaded : Bool

abbrev pub blank : ReplayEntry
blank = record { command_id = []; nonce = [] }

unfoldable pub initial : Cache
initial = record { slots = replicate 16 blank; count = 0; next = 0; loaded = false }

abbrev pub matches : Text → Text → ReplayEntry → Bool
matches command_id nonce e =
    (not (is_empty command_id) && text_eq command_id e.command_id)
    || (not (is_empty nonce) && text_eq nonce e.nonce)

unfoldable pub any_match : Text → Text → List ReplayEntry → Bool
any_match command_id nonce [] = false
any_match command_id nonce (e ∷ es) = matches command_id nonce e || any_match command_id nonce es

-- The first `g_replayCount` slots are searched.
unfoldable pub replay_seen : Text → Text → Cache → Bool
unfolding any_match
replay_seen command_id nonce c = any_match command_id nonce (take c.count c.slots)

-- copyBounded into a field of 72 bytes; `none` is its `false`.
abbrev pub copy_bounded : Text → Option Text
copy_bounded value =
    if is_empty value || leb replay_value_max (length value) then none else some value

-- The globals after the cache part of `rememberAccepted`, and whether it goes on to persist. A
-- nonce that does not fit leaves the command id written.
unfoldable pub remember : Text → Text → Cache → Cache × Bool
remember command_id nonce c = elim (copy_bounded command_id) [
  | none ↦ (c, false)
  | some id ↦ elim (copy_bounded nonce) [
    | none ↦ (record c { slots = modify c.next (λ e. record e { command_id = id }) c.slots }, false)
    | some value ↦ (
      record c {
        slots = modify c.next (λ e. record { command_id = id; nonce = value }) c.slots;
        count = if ltb c.count replay_cache_size then c.count + 1 else c.count;
        next = (c.next + 1) % replay_cache_size;
      },
      true,
    )
  ]
]

-- The text that `persistReplayCache` stores: `id,nonce` for each entry, with `;` between them.
unfoldable pub encode : List ReplayEntry → Text
encode [] = []
encode (e ∷ []) = e.command_id ++ b',' ∷ e.nonce
encode (e ∷ d ∷ es) = e.command_id ++ b',' ∷ (e.nonce ++ b';' ∷ encode (d ∷ es))

-- strtok_r(.., ";", ..): the tokens between semicolons, without the empty ones. `token` holds the
-- bytes since the last semicolon, in order.
abbrev pub flush : Text → List Text → List Text
flush [] ts = ts
flush (x ∷ xs) ts = (x ∷ xs) ∷ ts

unfoldable pub tokens : Text → Text → List Text
tokens token [] = flush token []
tokens token (x ∷ xs) =
    let cut = flush token (tokens [] xs) in
    let more = tokens (token ++ x ∷ []) xs in if x == b';' then cut else more

-- snprintf into a field of 72 bytes keeps 71.
abbrev pub clip : Text → Text
clip = take 71

-- One token of the load; `none` where it has no comma.
unfoldable pub parse_entry : Text → Option ReplayEntry
parse_entry token = elim (index_of b',' token) [
  | none ↦ none
  | some comma ↦
      some (record { command_id = clip (take comma token); nonce = clip (drop (suc comma) token) })
]

-- The loop over the tokens fills the slots from `g_replayCount` on, while there is room.
unfoldable pub load_tokens : List Text → Cache → Cache
load_tokens [] c = c
load_tokens (t ∷ ts) c =
    let stored : Cache = elim (parse_entry t) [
      | none ↦ c
      | some e ↦ record c { slots = modify c.count (λ _. e) c.slots; count = c.count + 1 }
    ] in
    let rest = load_tokens ts stored in if ltb c.count replay_cache_size then rest else c

-- `loadReplayCache`: `stored` is the flash's text, if there is one. With its terminator it may
-- have 1024 bytes.
unfoldable pub load_replay_cache : Option Text → Cache → Cache
unfolding load_tokens
load_replay_cache stored c =
    let marked = record c { loaded = true } in
    if c.loaded then c else elim stored [
      | none ↦ marked
      | some text ↦
          if ltb 1024 (length text + 1)
          then marked
          else (let filled = load_tokens (tokens [] text) marked in
              record filled { next = filled.count % replay_cache_size })
    ]
