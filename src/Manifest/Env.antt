-- ===== src/Manifest/Env.antt =====
-- src/service_manifest/modules/manifest/env.py: `${NAME}` references and their resolution.
pub mod Pieces
use winter_service_tmux.Prelude.{
  ℕ, zero, suc, ◌-◌, ◌≡◌, refl, Bool, false, ◌&&◌, ◌||◌, Option, none, some, List, [], ◌∷◌, ◌++◌,
  leb, if◌then◌else◌, ◌==◌, nat_eq, Text, text_eq, text_beq, contains, length, take, all,
}
use winter_service_tmux.Prelude.Dict.{Dict, lookup, insert}
use winter_service_tmux.Prelude.Str.{codes, strip, lstrip, strip_prefix, split_first, splitlines}

abbrev is_letter : ℕ → Bool
is_letter c = (leb b'A' c && leb c b'Z') || (leb b'a' c && leb c b'z') || c == b'_'

unfoldable pub is_name_char : ℕ → Bool
is_name_char c = is_letter c || (leb b'0' c && leb c b'9')

-- The longest run of name characters in front, and the rest.
unfoldable pub span_name : Text → Text × Text
unfolding is_name_char
span_name [] = ([], [])
span_name (c ∷ s) =
    let (name, more) = span_name s in if is_name_char c then (c ∷ name, more) else ([], c ∷ s)

abbrev starts_name : Text → Bool
starts_name [] = false
starts_name (c ∷ _) = is_letter c

-- `^[A-Za-z_][A-Za-z0-9_]*$`
unfoldable pub is_valid_env_name : Text → Bool
unfolding is_name_char
is_valid_env_name name = starts_name name && all is_name_char name

abbrev closing : Text → Text → Option (Text × Text)
closing name [] = none
closing name (c ∷ more) = if starts_name name && c == b'}' then some (name, more) else none

abbrev behind_dollar : Text → Option (Text × Text)
behind_dollar [] = none
behind_dollar (c ∷ s) =
    let (name, more) = span_name s in if c == b'{' then closing name more else none

-- `\$\{([A-Za-z_][A-Za-z0-9_]*)\}` at the start of a text: the name, and what is behind
unfoldable pub match_var : Text → Option (Text × Text)
unfolding span_name
match_var [] = none
match_var (c ∷ s) = if c == b'$' then behind_dollar s else none

-- What a template is made of.
pub data Piece : Type 0 where
  char : ℕ → Piece
  ref : Text → Piece

-- The matches of the pattern from the left and the characters between them; each round takes a
-- character at least, which bounds the rounds.
unfoldable pub scan : ℕ → Text → List Piece
unfolding match_var
scan zero s = []
scan (suc fuel) [] = []
scan (suc fuel) (c ∷ s) = elim (match_var (c ∷ s)) [
  | none ↦ char c ∷ scan fuel s
  | some (name, more) ↦ ref name ∷ scan fuel more
]

unfoldable pub pieces : Text → List Piece
unfolding scan
pieces template = scan (length template) template

abbrev pub reference : Text → Text
reference name = b'$' ∷ b'{' ∷ name ++ (b'}' ∷ [])

-- `_replace` at each match: the text so far, and the missing names so far
unfoldable pub substitute : Dict Text Text → List Piece → Text → List Text → Text × List Text
substitute env [] rendered unresolved = (rendered, unresolved)
substitute env (char c ∷ ps) rendered unresolved =
    substitute env ps (rendered ++ (c ∷ [])) unresolved
substitute env (ref name ∷ ps) rendered unresolved =
    let (piece, missing) : Text × List Text = elim (lookup name env) [
      | some value ↦ (value, unresolved)
      | none ↦ (
        reference name,
        if contains name unresolved then unresolved else unresolved ++ (name ∷ []),
      )
    ] in
    substitute env ps (rendered ++ piece) missing

unfoldable pub interpolate : Text → Dict Text Text → Text × List Text
unfolding substitute
interpolate template env = substitute env (pieces template) [] []

unfoldable pub collect_refs : List Piece → List Text → List Text
collect_refs [] result = result
collect_refs (char c ∷ ps) result = collect_refs ps result
collect_refs (ref name ∷ ps) result =
    collect_refs ps (if contains name result then result else result ++ (name ∷ []))

unfoldable pub referenced_vars : Text → List Text
unfolding collect_refs
referenced_vars template = collect_refs (pieces template) []

abbrev through_brace : Text → Text
through_brace [] = []
through_brace (c ∷ s) = let more = through_brace s in if c == b'}' then c ∷ [] else c ∷ more

-- A `${` that starts no reference, up to and with the next `}`.
unfoldable pub malformed_references : Text → List Text
unfolding match_var
malformed_references [] = []
malformed_references (c ∷ []) = []
malformed_references (c ∷ d ∷ s) =
    let later = malformed_references (d ∷ s) in
    if c == b'$' && d == b'{'
    then (elim (match_var (c ∷ d ∷ s)) [
      | some _ ↦ later
      | none ↦ (c ∷ d ∷ through_brace s) ∷ later
    ])
    else later

abbrev pub Missing : Type 0
Missing = List (Text × Text)

abbrev blame : Text → List Text → Missing
blame key [] = []
blame key (name ∷ names) = (key, name) ∷ blame key names

-- the loop of `resolve_service_env`
unfoldable pub resolve_loop :
    Dict Text Text → Dict Text Text → Dict Text Text → Missing → Dict Text Text × Missing
unfolding interpolate
resolve_loop [] effective resolved unresolved = (resolved, unresolved)
resolve_loop ((key, value) ∷ mapping) effective resolved unresolved =
    let (rendered, missing) = interpolate value effective in
    let (effective', resolved', unresolved') : Dict Text Text × Dict Text Text × Missing =
      elim missing [
        | [] ↦ (insert key rendered effective, insert key rendered resolved, unresolved)
        | m ∷ ms ↦ (effective, resolved, unresolved ++ blame key (m ∷ ms))
      ] in
    resolve_loop mapping effective' resolved' unresolved'

unfoldable pub resolve_service_env : Dict Text Text → Dict Text Text → Dict Text Text × Missing
unfolding resolve_loop
resolve_service_env mapping env = resolve_loop mapping env [] []

abbrev last? : Text → Option ℕ
last? [] = none
last? (c ∷ s) = elim (last? s) [ none ↦ some c | some d ↦ some d ]

abbrev unquote : Text → Text
unquote [] = []
unquote (c ∷ s) = elim (last? s) [
  | none ↦ c ∷ s
  | some d ↦ if c == d && (c == b'"' || c == b'\'') then take (length s - 1) s else c ∷ s
]

-- one line of an env file, stripped
abbrev assignment : Text → Option (Text × Text)
assignment line = elim (split_first b'=' line) [
  | none ↦ none
  | some (key, value) ↦ elim (strip key) [ [] ↦ none | c ∷ k ↦ some (c ∷ k, unquote value) ]
]

abbrev without_export : Text → Text
without_export line = elim (strip_prefix (codes "export ") line) [
  | none ↦ line
  | some more ↦ lstrip more
]

abbrev parse_env_line : Text → Option (Text × Text)
parse_env_line [] = none
parse_env_line (c ∷ line) = if c == b'#' then none else assignment (without_export (c ∷ line))

unfoldable pub parse_env_lines : List Text → Dict Text Text → Dict Text Text
unfolding strip split_first strip_prefix lstrip
parse_env_lines [] result = result
parse_env_lines (raw ∷ lines) result = parse_env_lines lines (elim (parse_env_line (strip raw)) [
  | none ↦ result
  | some (key, value) ↦ insert key value result
])

unfoldable pub parse_env_text : Text → Dict Text Text
unfolding parse_env_lines
parse_env_text text = parse_env_lines (splitlines text) []

runs :
    (interpolate (codes "a${B}${C}$D") ((codes "B", codes "1") ∷ [])
      ≡ (codes "a1${C}$D", codes "C" ∷ []))
    × (malformed_references (codes "${1} ${A} ${") ≡ codes "${1}" ∷ codes "${" ∷ [])
    × (parse_env_text (codes "# c\nexport A = 'x y'\nB=1=2\n=3")
        ≡ (codes "A", codes " 'x y'") ∷ (codes "B", codes "1=2") ∷ [])
unfolding interpolate pieces malformed_references parse_env_text lookup insert contains text_beq
    splitlines
runs = (refl, refl, refl)
