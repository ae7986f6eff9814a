-- ===== src/Ota/Strings.antt =====
-- The members of Arduino's `String` that the updater calls.
use forge_key.Prelude.{
  ℕ, suc, Bool, true, ◌&&◌, ◌||◌, Option, none, some, [], ◌∷◌, leb, ◌==◌, if◌then◌else◌, Text,
  codes, is_empty, text_eq, false,
}

-- isspace
abbrev is_space : ℕ → Bool
is_space c = c == b' ' || (leb 9 c && leb c 13)

unfoldable pub trim_end : Text → Text
trim_end [] = []
trim_end (c ∷ cs) = let rest = trim_end cs in if is_empty rest && is_space c then [] else c ∷ rest

unfoldable pub trim : Text → Text
unfolding trim_end
trim [] = []
trim (c ∷ cs) = let rest = trim cs in if is_space c then rest else trim_end (c ∷ cs)

unfoldable pub starts_with : Text → Text → Bool
starts_with [] t = true
starts_with (c ∷ cs) [] = false
starts_with (c ∷ cs) (x ∷ xs) = c == x && starts_with cs xs

-- indexOf of a text: the first position at which it stands.
unfoldable pub index_of_text : Text → Text → Option ℕ
index_of_text p [] = if is_empty p then some 0 else none
index_of_text p (x ∷ xs) =
    let later = index_of_text p xs in
    if starts_with p (x ∷ xs) then some 0 else elim later [ none ↦ none | some i ↦ some (suc i) ]

-- Whether a text is one of those that stand for every device.
abbrev pub is_wildcard : Text → Bool
is_wildcard t = is_empty t || text_eq t (codes "all") || text_eq t (codes "*")
