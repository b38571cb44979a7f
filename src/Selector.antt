-- ===== src/Selector.antt =====
-- src/service_orchestrator/modules/orchestrate/selector_service.py and env_enumerator.py: patterns
-- into services.
use winter_service_tmux.Prelude.{
  ◌≡◌, refl, ◌∙◌, inl, inr, Bool, true, false, not, ◌||◌, none, some, List, [], ◌∷◌, ◌++◌, arith,
  if◌then◌else◌, Bool-cases, ◌==◌, nat_eq, Text, text_eq, contains, filter, any,
}
use winter_service_tmux.Prelude.Dict.{Dict, insert, get_or}
use winter_service_tmux.Prelude.Str.{codes, strip_prefix}
use winter_service_tmux.Pattern.{fnmatchcase, segments, matches_pattern, is_glob}

-- `running_envs`, of the names `list_sessions` answers
unfoldable pub running_envs : Text → List Text → List Text
unfolding strip_prefix
running_envs prefix [] = []
running_envs prefix (s ∷ sessions) =
    let more = running_envs prefix sessions in
    elim (strip_prefix (prefix ++ (b'-' ∷ [])) s) [ none ↦ more | some env ↦ env ∷ more ]

unfoldable pub candidate_envs_for_pattern : Text → List Text → List Text
unfolding segments is_glob fnmatchcase
candidate_envs_for_pattern pattern all_running =
    let env_seg = (segments pattern).0 in
    if is_glob env_seg then filter (λ e. fnmatchcase e env_seg) all_running else env_seg ∷ []

-- the workspace patterns, and the others
unfoldable pub split_workspace_patterns : List Text → List Text × List Text
unfolding segments
split_workspace_patterns patterns = (
  filter (λ p. (segments p).0 == codes "workspace") patterns,
  filter (λ p. not ((segments p).0 == codes "workspace")) patterns,
)

-- `env_services.setdefault(env, [])` and the append where the name is new
unfoldable pub select : Text → Text → Dict Text (List Text) → Dict Text (List Text)
select env name env_services =
    let names = get_or env [] env_services in
    insert env (if contains name names then names else names ++ (name ∷ [])) env_services

-- the two inner loops, for one pattern: the selection, and whether the pattern matched
unfoldable pub select_services :
    Text → Text → List Text → Dict Text (List Text) × Bool → Dict Text (List Text) × Bool
unfolding matches_pattern select
select_services pattern env [] state = state
select_services pattern env (name ∷ names) (env_services, matched) =
    select_services pattern env names (
      if matches_pattern env name pattern
      then (select env name env_services, true)
      else (env_services, matched))

unfoldable pub select_envs :
    Text → List Text → List Text → Dict Text (List Text) × Bool → Dict Text (List Text) × Bool
unfolding select_services
select_envs pattern services_list [] state = state
select_envs pattern services_list (env ∷ envs) state =
    select_envs pattern services_list envs (select_services pattern env services_list state)

-- `expand_env_patterns`, with the selection so far: the dead patterns come in their order
unfoldable pub expand_loop :
    List Text → List Text → List Text → Dict Text (List Text) → Dict Text (List Text) × List Text
unfolding select_envs candidate_envs_for_pattern
expand_loop services_list live_envs [] env_services = (env_services, [])
expand_loop services_list live_envs (pattern ∷ patterns) env_services =
    let (selected, matched) =
      select_envs pattern services_list (candidate_envs_for_pattern pattern live_envs)
        (env_services, false) in
    let (final, dead) = expand_loop services_list live_envs patterns selected in
    (final, if matched then dead else pattern ∷ dead)

unfoldable pub expand_env_patterns :
    List Text → List Text → Text → List Text → Dict Text (List Text) × List Text
unfolding expand_loop running_envs
expand_env_patterns patterns services_list prefix sessions =
    expand_loop services_list (running_envs prefix sessions) patterns []

-- the names of `more` that `names` has not, behind it
unfoldable pub add_new : List Text → List Text → List Text
add_new names [] = names
add_new names (n ∷ more) = add_new (if contains n names then names else names ++ (n ∷ [])) more

abbrev is_none : List Text → Bool
is_none [] = true
is_none (_ ∷ _) = false

unfoldable pub expand_workspace_loop :
    List Text → List Text → List Text → List Text → List Text × List Text
unfolding segments fnmatchcase add_new
expand_workspace_loop ws_services [] matched dead = (matched, dead)
expand_workspace_loop ws_services (pattern ∷ patterns) matched dead =
    let hits = filter (λ n. fnmatchcase n ((segments pattern).1)) ws_services in
    expand_workspace_loop ws_services patterns (add_new matched hits)
      (if is_none hits then dead ++ (pattern ∷ []) else dead)

unfoldable pub expand_workspace_patterns : List Text → List Text → List Text × List Text
unfolding expand_workspace_loop
expand_workspace_patterns workspace_pats ws_services =
    expand_workspace_loop ws_services workspace_pats [] []

-- whether a pattern selects some service of some candidate environment
unfoldable pub selects : List Text → List Text → Text → Bool
unfolding candidate_envs_for_pattern matches_pattern
selects services_list live_envs pattern =
    any (λ env. any (λ name. matches_pattern env name pattern) services_list)
      (candidate_envs_for_pattern pattern live_envs)

select_services-matched :
    (pattern env : Text) (names : List Text) (d : Dict Text (List Text)) (matched : Bool)
    → (select_services pattern env names (d, matched)).1
      ≡ (matched || any (λ name. matches_pattern env name pattern) names)
unfolding select_services any
select_services-matched pattern env [] d matched = ground arith
select_services-matched pattern env (name ∷ names) d matched =
    elim (Bool-cases (matches_pattern env name pattern)) [
      | inl e ↦
          rw (e, select_services, any)
            (select_services-matched pattern env names (select env name d) true ∙ ground arith)
      | inr e ↦ rw (e, select_services, any) (select_services-matched pattern env names d matched)
    ]

select_envs-matched :
    (pattern : Text) (services_list envs : List Text) (d : Dict Text (List Text)) (matched : Bool)
    → (select_envs pattern services_list envs (d, matched)).1
      ≡ (matched || any (λ env. any (λ name. matches_pattern env name pattern) services_list) envs)
unfolding select_envs any
select_envs-matched pattern services_list [] d matched = ground arith
select_envs-matched pattern services_list (env ∷ envs) d matched =
    let state = select_services pattern env services_list (d, matched) in
    select_envs-matched pattern services_list envs (state.0) (state.1)
    ∙ rw (select_services-matched pattern env services_list d matched) (ground arith)

expand_loop-dead :
    (services_list live_envs patterns : List Text) (d : Dict Text (List Text))
    → (expand_loop services_list live_envs patterns d).1
      ≡ filter (λ p. not (selects services_list live_envs p)) patterns
unfolding expand_loop filter selects
expand_loop-dead services_list live_envs [] d = refl
expand_loop-dead services_list live_envs (pattern ∷ patterns) d =
    let state =
      select_envs pattern services_list (candidate_envs_for_pattern pattern live_envs) (d, false) in
    rw
      (
        expand_loop-dead services_list live_envs patterns (state.0),
        select_envs-matched pattern services_list (candidate_envs_for_pattern pattern live_envs) d
            false,
      )
      (ground arith)

-- The dead patterns are the patterns that select no service of no candidate environment, in their
-- order, whichever sessions run.
pub expand_env_patterns-dead :
    (patterns services_list : List Text) (prefix : Text) (sessions : List Text)
    → (expand_env_patterns patterns services_list prefix sessions).1
      ≡ filter (λ p. not (selects services_list (running_envs prefix sessions) p)) patterns
unfolding expand_env_patterns
expand_env_patterns-dead patterns services_list prefix sessions =
    expand_loop-dead services_list (running_envs prefix sessions) patterns []
