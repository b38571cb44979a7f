-- ===== src/Request.antt =====
-- src/service_orchestrator/modules/orchestrate/request_parser.py and log_query.py, and
-- `_split_scope_pattern` of dispatch_service.py: the arguments of the command line.
use winter_service_tmux.Prelude.{
  ℕ, ◌⊎◌, inl, inr, Bool, true, false, not, ◌||◌, Option, none, some, List, [], ◌∷◌, ◌++◌,
  if◌then◌else◌, ◌==◌, nat_eq, Text, text_eq, contains,
}
use winter_service_tmux.Prelude.Int.{ℤ}
use winter_service_tmux.Prelude.Str.{codes, split_first, strip, to_int}

-- The environment is set for `up` and `down`, the patterns for the others.
pub record OrchestratorRequest : Type 0 where
  pub action : Text
  pub env : Option Text
  pub patterns : List Text

-- The errors, with the values their messages print.
pub data ParseError : Type 0 where
  usage : ParseError
  unknown_action one_scope : Text → ParseError
  restart_patterns logs_patterns : ParseError

unfoldable pub exit_code : ParseError → ℕ
exit_code usage = 2
exit_code (unknown_action _) = 2
exit_code (one_scope _) = 2
exit_code restart_patterns = 1
exit_code logs_patterns = 1

abbrev pub actions : List Text
actions = codes "up" ∷ codes "down" ∷ codes "status" ∷ codes "restart" ∷ codes "logs" ∷ []

abbrev scope_request : Text → List Text → ParseError ⊎ OrchestratorRequest
scope_request action (scope ∷ []) =
    inr (record { action = action; env = some scope; patterns = [] })
scope_request action _ = inl (one_scope action)

abbrev pattern_request : Text → List Text → OrchestratorRequest
pattern_request action rest = record { action = action; env = none; patterns = rest }

abbrev needs_pattern : ParseError → Text → List Text → ParseError ⊎ OrchestratorRequest
needs_pattern error action [] = inl error
needs_pattern error action (p ∷ rest) = inr (pattern_request action (p ∷ rest))

unfoldable pub parse_request : List Text → ParseError ⊎ OrchestratorRequest
parse_request [] = inl usage
parse_request (action ∷ rest) =
    if not (contains action actions)
    then inl (unknown_action action)
    else if action == codes "up" || action == codes "down"
    then scope_request action rest
    else if action == codes "restart"
    then needs_pattern restart_patterns action rest
    else if action == codes "logs"
    then needs_pattern logs_patterns action rest
    else inr (pattern_request action rest)

unfoldable pub split_scope_pattern : Text → Text × Option Text
unfolding split_first
split_scope_pattern target = elim (split_first b'/' target) [
  | none ↦ (target, none)
  | some (scope, svc_pattern) ↦ (scope, if svc_pattern == codes "*" then none else some svc_pattern)
]

pub record LogRenderOptions : Type 0 where
  pub follow : Bool
  pub tail : Option ℤ
  pub since : Text
  pub until : Text
  pub timestamps : Bool

-- `parse_tail`; what cannot be read is no bound, as `all` is.
unfoldable pub parse_tail : Text → Option ℤ
unfolding strip to_int
parse_tail raw = let s = strip raw in if s == [] || s == codes "all" then none else to_int s

-- what the loop of `parse_log_args` has read
pub record Parsed : Type 0 where
  pub patterns : List Text
  pub follow : Bool
  pub tail_raw : Text
  pub since : Text
  pub until : Text
  pub timestamps : Bool

pub data Flag : Type 0 where
  follow_flag timestamps_flag tail_flag since_flag until_flag : Flag
  no_flag : Flag

unfoldable pub flag_of : Text → Flag
flag_of tok =
    if tok == codes "-f" || tok == codes "--follow"
    then follow_flag
    else if tok == codes "-t" || tok == codes "--timestamps"
    then timestamps_flag
    else if tok == codes "-n" || tok == codes "--tail"
    then tail_flag
    else if tok == codes "--since"
    then since_flag
    else if tok == codes "--until"
    then until_flag
    else no_flag

abbrev value : Text → List Text → Text
value default [] = default
value default (v ∷ _) = v

unfoldable pub parse_tokens : List Text → Parsed → Parsed
unfolding flag_of
parse_tokens [] p = p
parse_tokens (tok ∷ []) p = elim (flag_of tok) [
  | follow_flag ↦ record p { follow = true }
  | timestamps_flag ↦ record p { timestamps = true }
  | tail_flag ↦ record p { tail_raw = codes "all" }
  | since_flag ↦ record p { since = [] }
  | until_flag ↦ record p { until = [] }
  | no_flag ↦ record p { patterns = p.patterns ++ (tok ∷ []) }
]
parse_tokens (tok ∷ v ∷ tokens) p = elim (flag_of tok) [
  | follow_flag ↦ parse_tokens (v ∷ tokens) (record p { follow = true })
  | timestamps_flag ↦ parse_tokens (v ∷ tokens) (record p { timestamps = true })
  | tail_flag ↦ parse_tokens tokens (record p { tail_raw = v })
  | since_flag ↦ parse_tokens tokens (record p { since = v })
  | until_flag ↦ parse_tokens tokens (record p { until = v })
  | no_flag ↦ parse_tokens (v ∷ tokens) (record p { patterns = p.patterns ++ (tok ∷ []) })
]

unfoldable pub parse_log_args : List Text → List Text × LogRenderOptions
unfolding parse_tokens parse_tail
parse_log_args tokens =
    let p = parse_tokens tokens (record {
      patterns = [];
      follow = false;
      tail_raw = codes "all";
      since = [];
      until = [];
      timestamps = false;
    }) in
    (
      p.patterns,
      record {
        follow = p.follow;
        tail = parse_tail (p.tail_raw);
        since = p.since;
        until = p.until;
        timestamps = p.timestamps;
      },
    )
