-- ===== src/Pattern.antt =====
-- src/service_orchestrator/modules/orchestrate/pattern_match.py, with `fnmatch.fnmatchcase` of
-- Python's library.
use winter_service_tmux.Prelude.{
  ℕ, zero, suc, ◌≤◌, ◌≡◌, refl, Bool, true, false, not, ◌&&◌, ◌||◌, Option, none, some, List, [],
  ◌∷◌, map, arith, leb, if◌then◌else◌, ◌==◌, nat_eq, Text, text_eq, text_beq, contains, length, any,
}
use winter_service_tmux.Prelude.Str.{codes, split_first}

-- a part of a glob: a character, any character, any text, or a set of ranges, perhaps negated
pub data Token : Type 0 where
  char : ℕ → Token
  anyone anything : Token
  set : Bool → List (ℕ × ℕ) → Token

-- The ranges of a bracket's inside; a character is a range of one.
unfoldable ranges : ℕ → Text → List (ℕ × ℕ)
ranges zero s = []
ranges (suc fuel) [] = []
ranges (suc fuel) (c ∷ []) = (c, c) ∷ []
ranges (suc fuel) (c ∷ d ∷ []) = (c, c) ∷ (d, d) ∷ []
ranges (suc fuel) (c ∷ d ∷ e ∷ s) =
    let range = ranges fuel s in
    let single = ranges fuel (d ∷ e ∷ s) in if d == b'-' then (c, e) ∷ range else (c, c) ∷ single

-- What is before the bracket that closes, and what is behind it; the first character cannot close.
abbrev bracket : Text → Option (Text × Text)
bracket [] = none
bracket (c ∷ s) = elim (split_first b']' s) [
  | none ↦ none
  | some (inside, more) ↦ some (c ∷ inside, more)
]

-- whether the set is negated, its inside, and what is behind
abbrev bracket_set : Text → Option (Bool × Text × Text)
bracket_set [] = none
bracket_set (c ∷ s) =
    if c == b'!'
    then (elim (bracket s) [ none ↦ none | some (inside, more) ↦ some (true, inside, more) ])
    else (elim (bracket (c ∷ s)) [ none ↦ none | some (inside, more) ↦ some (false, inside, more) ])

-- each round takes a character at least, which bounds the rounds
unfoldable tokens : ℕ → Text → List Token
unfolding ranges split_first
tokens zero s = []
tokens (suc fuel) [] = []
tokens (suc fuel) (c ∷ s) =
    let rest = tokens fuel s in
    if c == b'*'
    then anything ∷ rest
    else if c == b'?'
    then anyone ∷ rest
    else if c == b'['
    then (elim (bracket_set s) [
      | none ↦ char c ∷ rest
      | some (negated, inside, more) ↦
          set negated (ranges (length inside) inside) ∷ tokens fuel more
    ])
    else char c ∷ rest

abbrev suffixes : Text → List Text
suffixes [] = [] ∷ []
suffixes (c ∷ s) = (c ∷ s) ∷ suffixes s

abbrev is_xor : Bool → Bool → Bool
is_xor true b = not b
is_xor false b = b

unfoldable match_tokens : List Token → Text → Bool
match_tokens [] [] = true
match_tokens [] (c ∷ s) = false
match_tokens (anything ∷ ts) s = any (λ t. match_tokens ts t) (suffixes s)
match_tokens (char d ∷ ts) [] = false
match_tokens (char d ∷ ts) (c ∷ s) = c == d && match_tokens ts s
match_tokens (anyone ∷ ts) [] = false
match_tokens (anyone ∷ ts) (c ∷ s) = match_tokens ts s
match_tokens (set negated rs ∷ ts) [] = false
match_tokens (set negated rs ∷ ts) (c ∷ s) =
    is_xor negated (any (λ r. leb (r.0) c && leb c (r.1)) rs) && match_tokens ts s

-- `fnmatch.fnmatchcase(name, pat)`
unfoldable pub fnmatchcase : Text → Text → Bool
unfolding tokens match_tokens
fnmatchcase name pat = match_tokens (tokens (length pat) pat) name

-- the segments of a pattern; a bare one selects every service
unfoldable pub segments : Text → Text × Text
unfolding split_first
segments pattern = elim (split_first b'/' pattern) [
  | none ↦ (pattern, codes "*")
  | some (env, svc) ↦ (env, svc)
]

unfoldable pub matches_pattern : Text → Text → Text → Bool
unfolding segments fnmatchcase
matches_pattern env_name svc_name pattern =
    let (env_pat, svc_pat) = segments pattern in
    fnmatchcase env_name env_pat && fnmatchcase svc_name svc_pat

-- `_is_glob` of selector_service.py
unfoldable pub is_glob : Text → Bool
unfolding contains
is_glob segment = contains b'*' segment || contains b'?' segment || contains b'[' segment

tokens_literal :
    (fuel : ℕ) (s : Text) → length s ≤ fuel → is_glob s ≡ false → tokens fuel s ≡ map char s
unfolding tokens is_glob
tokens_literal zero [] short plain = refl
tokens_literal zero (c ∷ s) short plain = absurd (ground arith)
tokens_literal (suc fuel) [] short plain = refl
tokens_literal (suc fuel) (c ∷ s) short plain = ground (arith, tokens_literal fuel s, plain, short)

match_literal : (pat s : Text) → match_tokens (map char pat) s ≡ (s == pat)
unfolding match_tokens text_beq
match_literal [] [] = refl
match_literal [] (c ∷ s) = refl
match_literal (d ∷ pat) [] = refl
match_literal (d ∷ pat) (c ∷ s) = ground (arith, match_literal pat s)

-- A pattern without a wildcard matches the name it spells and no other.
pub fnmatchcase-literal :
    (name pat : Text) → is_glob pat ≡ false → fnmatchcase name pat ≡ (name == pat)
unfolding fnmatchcase
fnmatchcase-literal name pat plain =
    rw (tokens_literal (length pat) pat (omega arith) plain) (match_literal pat name)
