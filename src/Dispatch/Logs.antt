-- ===== src/Dispatch/Logs.antt =====
-- `logs_backlog` and `logs_follow` of
-- src/service_orchestrator/modules/orchestrate/dispatch_service.py, over a log service that is
-- handed in.
use winter_service_tmux.Prelude.{
  ℕ, Option, none, some, List, [], ◌∷◌, ◌++◌, if◌then◌else◌, ◌==◌, nat_eq, Text, text_eq,
}
use winter_service_tmux.Prelude.Dict.{Dict}
use winter_service_tmux.Prelude.Str.{codes}
use winter_service_tmux.Orchestrator.Host.{M, returned, raised, pure, attempt, ◌>>=◌}
use winter_service_tmux.Orchestrator.Context.{SessionContext, Seams}
use winter_service_tmux.Request.{LogRenderOptions}
use winter_service_tmux.LogService.Backlog.{LogQuery}
use winter_service_tmux.Dispatch.{build_ctx, caught}
use winter_service_tmux.Dispatch.Scopes.{Contexts, run_for_target}

-- `LogQuery.from_render`
unfoldable pub from_render : List Text → LogRenderOptions → LogQuery
from_render services render = record {
  services = services;
  follow = render.follow;
  tail = render.tail;
  since = render.since;
  until = render.until;
  timestamps = render.timestamps;
}

unfoldable pub logs_backlog :
    Seams
    → Contexts
    → (SessionContext → LogQuery → M ℕ)
    → Dict Text (List Text)
    → LogRenderOptions
    → ℕ
    → M ℕ
unfolding run_for_target from_render
logs_backlog seams contexts logs env_services render rc =
    run_for_target seams contexts (λ ctx env svc_names. logs ctx (from_render svc_names render))
      env_services rc

abbrev pub Pairs : Type 0
Pairs = List (SessionContext × LogQuery)

abbrev with_pair : List Text → LogRenderOptions → Pairs → ℕ → Option SessionContext → Pairs × ℕ
with_pair svc_names render pairs rc none = (pairs, 1)
with_pair svc_names render pairs rc (some ctx) =
    (pairs ++ ((ctx, from_render svc_names render) ∷ []), rc)

-- the loop that builds the pairs, with the pairs and the code so far
unfoldable pub follow_pairs :
    Seams → Contexts → Dict Text (List Text) → LogRenderOptions → Pairs → ℕ → M (Pairs × ℕ)
unfolding build_ctx from_render
follow_pairs seams contexts [] render pairs rc = pure (pairs, rc)
follow_pairs seams contexts ((env, svc_names) ∷ env_services) render pairs rc = do
  found ← build_ctx seams contexts env
  let (pairs', rc') = with_pair svc_names render pairs rc found
  follow_pairs seams contexts env_services render pairs' rc'

abbrev follow_all : Seams → (Pairs → M ℕ) → Pairs → ℕ → M ℕ
follow_all seams follow_streams [] rc = pure (if rc == 0 then 1 else rc)
follow_all seams follow_streams (pair ∷ pairs) rc = do
  outcome ← attempt (follow_streams (pair ∷ pairs))
  elim outcome [
    | returned result ↦ pure (if result == 0 then rc else result)
    | raised e ↦ caught seams (codes "follow_streams") e
  ]

unfoldable pub logs_follow :
    Seams → Contexts → (Pairs → M ℕ) → Dict Text (List Text) → LogRenderOptions → ℕ → M ℕ
unfolding follow_pairs
logs_follow seams contexts follow_streams env_services render rc = do
  collected ← follow_pairs seams contexts env_services render [] rc
  follow_all seams follow_streams (collected.0) (collected.1)
