-- ===== src/Tests/Backlogs.antt =====
-- Cases of the backlog that `logs` prints.
use winter_service_tmux.Prelude.{
  ◌≡◌, refl, inr, false, none, some, [], ◌∷◌, nat_beq, if◌then◌else◌, nat_eq, text_eq, text_beq,
  contains, filter, All,
}
use winter_service_tmux.Prelude.Int.{pos}
use winter_service_tmux.Prelude.Str
use winter_service_tmux.Logwriter
use winter_service_tmux.LogRepository
use winter_service_tmux.Prelude.Str.{codes, ltb_text, splitlines}
use winter_service_tmux.LogService.{build_event}
use winter_service_tmux.LogService.Merge.{IsSorted}
use winter_service_tmux.LogService.Backlog.{LogWorld, LogQuery, logs}
use winter_service_tmux.LogService.Kept.{IsWanted, IsTail, logs-IsWanted}
use winter_service_tmux.Tests.Sessions.{context}

-- every service has the same two entries in its active file
abbrev world : LogWorld
world = record {
  decode = λ bytes. bytes;
  ladder = λ t worktree name k. if nat_beq k 0 then some (codes "2\tup\n3\tok\n") else none;
  most_segments = 3;
  capture_pane = λ t session target. inr (codes "gone");
}

abbrev query : LogQuery
query = record {
  services = codes "web" ∷ [];
  follow = false;
  tail = some (pos 1);
  since = codes "1";
  until = [];
  timestamps = false;
}

-- the tail of the lines of `web`
printed :
    (logs world none (context []) query 0).events
    ≡ build_event (some (codes "3")) (codes "alpha") (codes "web") (codes "ok") ∷ []
unfolding logs contains text_beq splitlines ltb_text filter LogRepository.probe Logwriter.exists
    LogRepository.rfind LogRepository.lines_of Str.rstrip_newlines Str.split_first
printed = refl

logs-IsWanted_example :
    All (IsWanted (context []) query) ((logs world none (context []) query 0).events)
    × IsSorted ((logs world none (context []) query 0).events)
    × IsTail (query.tail) ((logs world none (context []) query 0).events)
logs-IsWanted_example = logs-IsWanted world none (context []) query 0
