-- ===== src/Orchestrator/Prune.antt =====
-- `_prune` of orchestrator_service.py
use winter_service_tmux.Prelude.{
  Bool, true, false, not, List, [], ◌∷◌, ◌++◌, if◌then◌else◌, nat_eq, Text, text_eq,
}
use winter_service_tmux.Prelude.Int.{ℤ, pos, ltb_ℤ, ◌-ℤ◌, scale}
use winter_service_tmux.Manifest.Model.{Service}
use winter_service_tmux.Orchestrator.Host.{
  M, Done, returned, raised, asked, pure, act, ask, for_each, ◌>>=◌, Failure, Outside, delete_log,
  has_session, now, mtime, rotated_segments, file_not_found,
}
use winter_service_tmux.Orchestrator.Context.{SessionContext, Seams, session}

abbrev is_gone : Failure → Bool
is_gone file_not_found = true
is_gone _ = false

-- `_segments_to_prune`, with the paths so far; a file that is gone is passed over.
unfoldable pub segments_to_prune : Outside → ℤ → List Text → List Text → M (List Text)
segments_to_prune outside cutoff [] result h = (returned result, h)
segments_to_prune outside cutoff (path ∷ paths) result h =
    elim (outside.time_answer h (mtime path)) [
      | returned t ↦
          segments_to_prune outside cutoff paths
            (if ltb_ℤ (pos t) cutoff then result ++ (path ∷ []) else result)
            (asked (mtime path) ∷ h)
      | raised e ↦
          if is_gone e
          then segments_to_prune outside cutoff paths result (asked (mtime path) ∷ h)
          else (raised e, asked (mtime path) ∷ h)
    ]

abbrev delete_logs : Seams → List Text → M Done
delete_logs seams paths = for_each paths (λ path. act (seams.outside) (delete_log path))

abbrev prune_service : Seams → SessionContext → ℤ → Service → M Done
prune_service seams ctx cutoff svc = do
  segments ← ask (seams.outside.texts_answer) (rotated_segments (ctx.worktree_dir) (svc.name))
  to_delete ← segments_to_prune (seams.outside) cutoff segments []
  delete_logs seams to_delete

-- the part of `_prune` behind the look at the session
abbrev prune_stopped : Seams → SessionContext → M Done
prune_stopped seams ctx = do
  t ← ask (seams.outside.time_answer) now
  for_each (ctx.services)
      (prune_service seams ctx (pos t -ℤ scale 1000000 (ctx.logs.retention_seconds)))

-- `_prune`
unfoldable pub prune : Seams → SessionContext → M Done
unfolding session segments_to_prune scale ◌-ℤ◌
prune seams ctx = if not (seams.has_clock) then pure tt else (do
  exists ← ask (seams.outside.flag_answer) (has_session (session ctx))
  if exists then pure tt else prune_stopped seams ctx)
