-- ===== src/Gateway/Strings.antt =====
-- The text functions that src/chat/chat.gateway.ts calls on headers, on lists of code units.
use gp_connect_server.Common.{
  ℕ, zero, suc, ◌+◌, Bool, true, false, ◌&&◌, ◌||◌, Option, none, some, List, [], ◌∷◌, map, ◌==◌,
  nat_eq, leb, includes, if◌then◌else◌,
}

abbrev pub Text : Type 0
Text = List ℕ

abbrev pub semicolon : ℕ
semicolon = 59

abbrev pub equals_sign : ℕ
equals_sign = 61

-- `at=`
abbrev pub at_prefix : Text
at_prefix = 97 ∷ 116 ∷ equals_sign ∷ []

-- What `trim` and `\s` take for white space.
abbrev pub is_space : ℕ → Bool
is_space c =
    (leb 9 c && leb c 13)
    || (includes (32 ∷ 160 ∷ 5760 ∷ 8232 ∷ 8233 ∷ 8239 ∷ 8287 ∷ 12288 ∷ 65279 ∷ []) c
        || (leb 8192 c && leb c 8202))

-- A character in front of the first part.
abbrev pub onto_first : ℕ → List Text → List Text
onto_first c [] = (c ∷ []) ∷ []
onto_first c (p ∷ parts) = (c ∷ p) ∷ parts

-- `text.split(c)`
unfoldable pub split : ℕ → Text → List Text
split c [] = [] ∷ []
split c (x ∷ xs) = let rest = split c xs in if x == c then [] ∷ rest else onto_first x rest

unfoldable pub trim_start : Text → Text
trim_start [] = []
trim_start (c ∷ cs) = let rest = trim_start cs in if is_space c then rest else c ∷ cs

-- A character in front of a text whose trailing space is gone.
abbrev pub keep_before : ℕ → Text → Text
keep_before c [] = if is_space c then [] else c ∷ []
keep_before c (d ∷ ds) = c ∷ d ∷ ds

unfoldable pub trim_end : Text → Text
trim_end [] = []
trim_end (c ∷ cs) = keep_before c (trim_end cs)

unfoldable pub trim : Text → Text
unfolding trim_start trim_end
trim s = trim_end (trim_start s)

-- `text.startsWith(prefix)`
unfoldable pub starts_with_text : Text → Text → Bool
starts_with_text [] s = true
starts_with_text (c ∷ p) [] = false
starts_with_text (c ∷ p) (d ∷ s) = (c == d) && starts_with_text p s

-- `text.slice(n)`
unfoldable pub drop : ℕ → Text → Text
drop zero s = s
drop (suc n) [] = []
drop (suc n) (c ∷ s) = drop n s

-- `parts.find((c) => c.startsWith(prefix))`
unfoldable pub find_prefixed : Text → List Text → Option Text
unfolding starts_with_text
find_prefixed prefix [] = none
find_prefixed prefix (p ∷ parts) =
    let rest = find_prefixed prefix parts in if starts_with_text prefix p then some p else rest

unfoldable pub slice_token : Option Text → Option Text
unfolding drop
slice_token none = none
slice_token (some t) = some (drop 3 t)

-- The value of the cookie `at` in a header `cookie`.
unfoldable pub cookie_token : Text → Option Text
unfolding split trim find_prefixed slice_token
cookie_token header = slice_token (find_prefixed at_prefix (map trim (split semicolon header)))

-- A letter of either case, for the expression `/^Bearer\s+/i`.
abbrev pub same_letter : ℕ → ℕ → Bool
same_letter lower c = (c == lower) || (c + 32 == lower)

unfoldable pub bearer_rest : Text → Text → Option Text
bearer_rest [] s = some s
bearer_rest (c ∷ p) [] = none
bearer_rest (c ∷ p) (d ∷ s) = let rest = bearer_rest p s in if same_letter c d then rest else none

-- `bearer`
abbrev pub bearer_word : Text
bearer_word = 98 ∷ 101 ∷ 97 ∷ 114 ∷ 101 ∷ 114 ∷ []

abbrev pub after_spaces : Text → Text → Text
after_spaces raw [] = raw
after_spaces raw (c ∷ s) = if is_space c then trim_start s else raw

-- `raw.replace(/^Bearer\s+/i, '')`
unfoldable pub without_bearer : Text → Text
unfolding bearer_rest trim_start
without_bearer raw = elim (bearer_rest bearer_word raw) [ none ↦ raw | some s ↦ after_spaces raw s ]
