-- ===== src/Command/Stored.antt =====
-- The text form of the replay cache in flash, and what a boot reads of it.
use mathlib.Core.List.{append-nil, append_assoc}
use forge_key.Prelude.{
  ℕ, zero, suc, ◌+◌, ◌≤◌, ◌<◌, ◌≡◌, refl, ap, sym, ◌∙◌, subst, true, false, some, List, [], ◌∷◌,
  ◌++◌, map, All, arith, ltb, ◌==◌, length, length-modify, take, take_all, take-append_length,
  drop-append_length, length-take, All-append, modify, Text, index_of, All-append,
  take-append_length, drop-append_length, if_cases,
}
use forge_key.Command.Replay.{
  ReplayEntry, Cache, initial, replay_seen, encode, flush, tokens, parse_entry, load_tokens,
  load_replay_cache, any_match,
}
use forge_key.Command.Ring.{IsRing, IsStorable}

-- A byte that a text does not have.
abbrev Lacks : ℕ → Text → Type 0
Lacks b t = All (λ x. (x == b) ≡ false) t

-- An entry that its text form keeps: it fits, and its separators are its own.
pub record IsPlain (e : ReplayEntry) : Type 0 where
  pub fits : IsStorable (e.command_id, e.nonce)
  pub no_comma : Lacks b',' e.command_id
  pub no_semicolon : Lacks b';' e.command_id
  pub no_semicolon_after : Lacks b';' e.nonce

abbrev entry_text : ReplayEntry → Text
entry_text e = e.command_id ++ b',' ∷ e.nonce

flush-append :
    (xs ys : Text) (y : ℕ) (ts : List Text) → flush (xs ++ y ∷ ys) ts ≡ (xs ++ y ∷ ys) ∷ ts
flush-append [] ys y ts = refl
flush-append (x ∷ xs) ys y ts = refl

tokens-append :
    (t token rest : Text) → Lacks b';' t → tokens token (t ++ rest) ≡ tokens (token ++ t) rest
unfolding tokens
tokens-append [] token rest h = rw append-nil refl
tokens-append (x ∷ t) token rest (other, h) =
    rw other (tokens-append t (token ++ x ∷ []) rest h)
    ∙ ap (λ s. tokens s rest) (append_assoc token (x ∷ []) t)

entry_text-Lacks : (e : ReplayEntry) → IsPlain e → Lacks b';' (entry_text e)
entry_text-Lacks e p =
    All-append (λ x. (x == b';') ≡ false) e.command_id (b',' ∷ e.nonce) p.no_semicolon
      (refl, p.no_semicolon_after)

-- One entry, with what follows it.
tokens-entry :
    (e : ReplayEntry) (rest : Text)
    → IsPlain e
    → tokens [] (entry_text e ++ rest) ≡ tokens (entry_text e) rest
tokens-entry e rest p = tokens-append (entry_text e) [] rest (entry_text-Lacks e p)

tokens-encode : (es : List ReplayEntry) → All IsPlain es → tokens [] (encode es) ≡ map entry_text es
unfolding encode tokens
tokens-encode [] ps = refl
tokens-encode (e ∷ []) (p, ps) =
    ap (tokens []) (sym (append-nil (entry_text e)))
    ∙ tokens-entry e [] p
    ∙ flush-append e.command_id e.nonce b',' []
tokens-encode (e ∷ d ∷ es) (p, ps) =
    let rest = encode (d ∷ es) in
    ap (tokens []) (sym (append_assoc e.command_id (b',' ∷ e.nonce) (b';' ∷ rest)))
    ∙ tokens-entry e (b';' ∷ rest) p
    ∙ flush-append e.command_id e.nonce b',' (tokens [] rest)
    ∙ ap (◌∷◌ (entry_text e)) (tokens-encode (d ∷ es) ps)

index_of-append : (c : ℕ) (t rest : Text) → Lacks c t → index_of c (t ++ c ∷ rest) ≡ some (length t)
unfolding index_of
index_of-append c [] rest h = ground arith
index_of-append c (x ∷ t) rest (other, h) = rw (other, index_of-append c t rest h) refl

parse_entry-entry_text : (e : ReplayEntry) → IsPlain e → parse_entry (entry_text e) ≡ some e
unfolding parse_entry
parse_entry-entry_text e p =
    let (_, id_fits, _, nonce_fits) = p.fits in
    rw (index_of-append b',' e.command_id e.nonce p.no_comma, parse_entry)
      (rw
        (
          take-append_length e.command_id (b',' ∷ e.nonce),
          drop-append_length e.command_id e.nonce b',',
          take_all 71 e.command_id (omega (arith, id_fits)),
          take_all 71 e.nonce (omega (arith, nonce_fits)),
        )
        refl)

take-modify :
    (n : ℕ) (e : ReplayEntry) (xs : List ReplayEntry)
    → n < length xs
    → take (suc n) (modify n (λ _. e) xs) ≡ take n xs ++ e ∷ []
take-modify n e [] h = absurd (omega arith)
take-modify zero e (x ∷ xs) h = refl
take-modify (suc n) e (x ∷ xs) h = ap (◌∷◌ x) (take-modify n e xs (omega arith))

-- What the loop leaves of a cache, whose first entries it keeps.
record IsFilled (es : List ReplayEntry) (c d : Cache) : Type 0 where
  entries : take d.count d.slots ≡ take c.count c.slots ++ es
  counted : d.count ≡ c.count + length es
  sixteen : length d.slots ≡ 16
  loaded : d.loaded ≡ c.loaded

abbrev filled_with : ReplayEntry → Cache → Cache
filled_with e c = record c { slots = modify c.count (λ _. e) c.slots; count = c.count + 1 }

load_tokens-step :
    (e : ReplayEntry) (ts : List Text) (c : Cache)
    → IsPlain e
    → c.count < 16
    → load_tokens (entry_text e ∷ ts) c ≡ load_tokens ts (filled_with e c)
unfolding load_tokens
load_tokens-step e ts c p room =
    let open_slot : ltb c.count 16 ≡ true = ground (arith, room) in
    simp (open_slot, parse_entry-entry_text e p) refl

load_tokens-IsFilled :
    (es : List ReplayEntry) (c : Cache)
    → All IsPlain es
    → c.count + length es ≤ 16
    → length c.slots ≡ 16
    → IsFilled es c (load_tokens (map entry_text es) c)
unfolding load_tokens
load_tokens-IsFilled [] c ps room sixteen = record {
  entries = sym (append-nil (take c.count c.slots));
  counted = omega arith;
  sixteen = sixteen;
  loaded = refl;
}
load_tokens-IsFilled (e ∷ es) c (p, ps) room sixteen =
    let next = filled_with e c in
    let wide : length next.slots ≡ 16 = length-modify c.count (λ _. e) c.slots ∙ sixteen in
    let rest = load_tokens-IsFilled es next ps (omega arith) wide in
    let added : take (c.count + 1) next.slots ≡ take c.count c.slots ++ e ∷ [] =
      subst (λ n. take n next.slots ≡ take c.count c.slots ++ e ∷ []) {x = suc c.count}
        (omega arith) (take-modify c.count e c.slots (omega arith)) in
    subst (IsFilled (e ∷ es) c) (sym (load_tokens-step e (map entry_text es) c p (omega arith)))
      (record {
        entries =
            rest.entries
            ∙ ap (λ l. l ++ es) added
            ∙ append_assoc (take c.count c.slots) (e ∷ []) es;
        counted = omega (arith, rest.counted);
        sixteen = rest.sixteen;
        loaded = rest.loaded;
      })

-- The entries in use, and their text as it is stored.
abbrev pub entries_of : Cache → List ReplayEntry
entries_of c = take c.count c.slots

abbrev pub stored_text : Cache → Text
stored_text c = encode (entries_of c)

-- What a boot reads of a stored cache.
pub record IsRestored (c d : Cache) : Type 0 where
  pub entries : entries_of d ≡ entries_of c
  pub ring : IsRing d
  pub loaded : d.loaded ≡ true

pub load_replay_cache-IsRestored :
    (c : Cache)
    → IsRing c
    → All IsPlain (entries_of c)
    → length (stored_text c) < 1024
    → IsRestored c (load_replay_cache (some (stored_text c)) initial)
unfolding load_replay_cache initial
load_replay_cache-IsRestored c ring plain short =
    let es = entries_of c in
    let marked = record initial { loaded = true } in
    let few : length es ≡ c.count =
      length-take c.count c.slots (omega (arith, ring.count_fits, ring.sixteen)) in
    let filled = load_tokens-IsFilled es marked plain (omega (arith, few, ring.count_fits)) refl in
    let got =
      subst (λ ts. IsFilled es marked (load_tokens ts marked)) (sym (tokens-encode es plain))
        filled in
    if_cases (IsRestored c) (ltb 1024 (length (stored_text c) + 1))
      (λ long. absurd (ground (arith, long, short)))
      (λ _. record {
        entries = got.entries;
        ring = record {
          sixteen = got.sixteen;
          count_fits = omega (arith, got.counted, few, ring.count_fits);
          next_fits = omega arith;
          fills_up = λ h. omega (arith, h);
        };
        loaded = got.loaded;
      })

-- A boot that reads the text of a valid cache recognises just the ids and nonces that the cache
-- did, and has a valid ring. No id holds a comma, no id and no nonce a semicolon, all fit their
-- fields, and the text is shorter than 1024 bytes.
pub replay_seen-load_replay_cache :
    (id nonce : Text) (c : Cache)
    → IsRing c
    → All IsPlain (entries_of c)
    → length (stored_text c) < 1024
    → let d = load_replay_cache (some (stored_text c)) initial in
      IsRing d × (replay_seen id nonce d ≡ replay_seen id nonce c)
unfolding replay_seen
replay_seen-load_replay_cache id nonce c ring plain short =
    let restored = load_replay_cache-IsRestored c ring plain short in
    (restored.ring, ap (any_match id nonce) restored.entries)
