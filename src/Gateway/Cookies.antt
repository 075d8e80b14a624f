-- ===== src/Gateway/Cookies.antt =====
-- The header `cookie` that a browser writes, and the token that the gateway reads from it.
use gp_connect_server.Common.{
  ℕ, ◌≡◌, refl, inl, inr, true, false, Option, none, some, List, [], ◌∷◌, ◌++◌, map, arith,
  Bool-cases, nat_beq_iff, ◌==◌, nat_eq, includes, if◌then◌else◌,
}
use gp_connect_server.Gateway.Strings.{
  Text, semicolon, equals_sign, at_prefix, split, trim, trim_start, starts_with_text, find_prefixed,
  slice_token, drop, cookie_token,
}
use gp_connect_server.Gateway.Service.{text_beq}

pub record Cookie : Type 0 where
  pub name : Text
  pub value : Text

-- `name=value`
abbrev pub segment : Cookie → Text
segment c = c.name ++ (equals_sign ∷ c.value)

-- A cookie as browsers send it: no `;`, no `=` in the name, no white space around.
pub record IsCookie (c : Cookie) : Type 0 where
  pub one_part : includes (segment c) semicolon ≡ false
  pub plain_name : includes c.name equals_sign ≡ false
  pub trimmed : trim (segment c) ≡ segment c

abbrev pub AllCookies : List Cookie → Type 0
AllCookies [] = Unit {0}
AllCookies (c ∷ cs) = IsCookie c × AllCookies cs

-- The header: the cookies with `; ` in between.
unfoldable pub header : Cookie → List Cookie → Text
header c [] = segment c
header c (d ∷ cs) = segment c ++ (semicolon ∷ 32 ∷ header d cs)

-- The first cookie of the name `at`.
unfoldable pub session_cookie : List Cookie → Option Text
session_cookie [] = none
session_cookie (c ∷ cs) =
    let rest = session_cookie cs in if text_beq c.name (97 ∷ 116 ∷ []) then some c.value else rest

split-cons : (c : ℕ) (s : Text) → (p : Text) × (parts : List Text) × (split c s ≡ p ∷ parts)
unfolding split
split-cons c [] = ([], [], refl)
split-cons c (x ∷ s) = elim (Bool-cases (x == c)) [
  | inl y ↦ ([], split c s, ground arith)
  | inr n ↦ let (p, parts, e) = split-cons c s in (x ∷ p, parts, ground arith)
]

split-append :
    (c : ℕ) (s rest : Text) → includes s c ≡ false → split c (s ++ (c ∷ rest)) ≡ s ∷ split c rest
unfolding split
split-append c [] rest h = ground (arith, nat_beq_iff c c)
split-append c (x ∷ s) rest h = ground (arith, split-append c s rest)

split_self : (c : ℕ) (s : Text) → includes s c ≡ false → split c s ≡ s ∷ []
unfolding split
split_self c [] h = refl
split_self c (x ∷ s) h = ground (arith, split_self c s)

trim-space : (s : Text) → trim (32 ∷ s) ≡ trim s
unfolding trim trim_start
trim-space s = refl

map-split_space : (s : Text) → map trim (split semicolon (32 ∷ s)) ≡ map trim (split semicolon s)
unfolding split
map-split_space s =
    let (p, parts, e) = split-cons semicolon s in let first = trim-space p in rw e (ground arith)

split-header :
    (c : Cookie) (cs : List Cookie)
    → IsCookie c
    → AllCookies cs
    → map trim (split semicolon (header c cs)) ≡ map segment (c ∷ cs)
unfolding header
split-header c [] i all =
    let one = split_self semicolon (segment c) i.one_part in
    let same = i.trimmed in rw (one, same) refl
split-header c (d ∷ cs) i all =
    let cut = split-append semicolon (segment c) (32 ∷ header d cs) i.one_part in
    let same = i.trimmed in
    let spaced = map-split_space (header d cs) in
    let rest = split-header d cs all.0 all.1 in rw (cut, same, spaced, rest) refl

-- A segment starts with `at=` exactly if the name of the cookie is `at`.
starts_with_text-segment :
    (name value : Text)
    → includes name equals_sign ≡ false
    → starts_with_text at_prefix (name ++ (equals_sign ∷ value)) ≡ text_beq name (97 ∷ 116 ∷ [])
unfolding starts_with_text
starts_with_text-segment [] value h = refl
starts_with_text-segment (a ∷ []) value h = ground arith
starts_with_text-segment (a ∷ b ∷ []) value h = ground arith
starts_with_text-segment (a ∷ b ∷ c ∷ name) value h = ground (arith, nat_beq_iff c equals_sign)

-- The value after `at=`.
drop-segment :
    (name value : Text)
    → text_beq name (97 ∷ 116 ∷ []) ≡ true
    → drop 3 (name ++ (equals_sign ∷ value)) ≡ value
unfolding drop
drop-segment [] value h = absurd (ground arith)
drop-segment (a ∷ []) value h = absurd (ground arith)
drop-segment (a ∷ b ∷ []) value h = refl
drop-segment (a ∷ b ∷ c ∷ name) value h = absurd (ground arith)

find_prefixed-session_cookie :
    (cs : List Cookie)
    → AllCookies cs
    → slice_token (find_prefixed at_prefix (map segment cs)) ≡ session_cookie cs
unfolding find_prefixed slice_token session_cookie
find_prefixed-session_cookie [] all = refl
find_prefixed-session_cookie (c ∷ cs) all =
    let same = starts_with_text-segment c.name c.value (all.0).plain_name in
    let rest = find_prefixed-session_cookie cs all.1 in
    elim (Bool-cases (text_beq c.name (97 ∷ 116 ∷ []))) [
      | inl y ↦ let value = drop-segment c.name c.value y in rw (same, y) (ground arith)
      | inr n ↦ rw (same, n) rest
    ]

-- The gateway reads from the header that a browser writes the value of the cookie `at`: of the first
-- one if there are several, and nothing if there is none.
pub cookie_token-header :
    (c : Cookie) (cs : List Cookie)
    → IsCookie c
    → AllCookies cs
    → cookie_token (header c cs) ≡ session_cookie (c ∷ cs)
unfolding cookie_token
cookie_token-header c cs i all =
    let parts = split-header c cs i all in rw parts (find_prefixed-session_cookie (c ∷ cs) (i, all))
