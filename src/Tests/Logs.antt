-- ===== src/Tests/Logs.antt =====
-- Cases of the capture writer, the log reader, the log service, the selector and the quoting.
use winter_service_tmux.Prelude.{
  ℕ, zero, suc, ◌≤◌, ◌≡◌, refl, true, false, not, Option, none, some, List, [], ◌∷◌, ◌++◌, map,
  arith, ◌==◌, nat_eq, Text, text_eq, text_beq, contains, length, filter,
}
use winter_service_tmux.Prelude.Dict.{Dict, lookup}
use winter_service_tmux.Prelude.Str.{codes, ltb_text, splitlines}
use winter_service_tmux.Logwriter.{Bytes, Ladder, run, entry_of, exists}
use winter_service_tmux.Logwriter.Stamp.{DateTime, stamp}
use winter_service_tmux.Logwriter.Loop.{IsRest, joined, entries, run_keeps_newest}
use winter_service_tmux.Logwriter.Segments.{IsCapped, run-IsCapped}
use winter_service_tmux.Logwriter.StampOrder.{earlier, ltb_text-stamp}
use winter_service_tmux.LogRepository.{read_new_lines, segment_files}
use winter_service_tmux.LogRepository.Polling.{DecodesByLine}
use winter_service_tmux.LogRepository.Segments.{HasSegments, bytes_of, bytes_of-segment_files}
use winter_service_tmux.LogService.{
  parse_line, merge_sorted, events_of, Stream, apply_time_filter, live_events, parse_lines,
  build_event,
}
use winter_service_tmux.LogService.Merge.{merge_sorted_keeps_service, is_of, IsSorted}
use winter_service_tmux.LogService.Filters.{live_events-apply_time_filter}
use winter_service_tmux.LogService.Follow.{polls, backlog_and_polls}
use winter_service_tmux.LogService.RoundTrip.{file_text, written, read_back}
use winter_service_tmux.Manifest.Env.{interpolate, pieces, referenced_vars}
use winter_service_tmux.Manifest.Env.Pieces.{is_missing, interpolate-missing}
use winter_service_tmux.Launch.{shell_expand_service_value}
use winter_service_tmux.Launch.Expansion.{shell_expand_service_value-interpolate}
use winter_service_tmux.Launch.Quoting.{read_word, plain}
use winter_service_tmux.Pattern.{is_glob, fnmatchcase, fnmatchcase-literal}
use winter_service_tmux.Selector.{
  expand_env_patterns, selects, running_envs, expand_env_patterns-dead,
}
use winter_service_tmux.TmuxServer.{leaked, clean_server_env, clean_server_env-leaked}

abbrev noon : DateTime
noon = record {
  year = 2024;
  month = 5;
  day = 6;
  hour = 12;
  minute = 0;
  second = 0;
  microsecond = 7;
}

abbrev later : DateTime
later = record {
  year = 2024;
  month = 5;
  day = 6;
  hour = 12;
  minute = 0;
  second = 1;
  microsecond = 0;
}

abbrev as_is : Bytes → Text
as_is b = b

abbrev no_files : Ladder
no_files _ = none

abbrev one_file : Ladder
one_file zero = some (codes "new\n")
one_file (suc zero) = some (codes "old\n")
one_file _ = none

abbrev input : List (Bytes × DateTime)
input = (codes "up\n", noon) ∷ (codes "ready\n", later) ∷ []

run_keeps_newest_example :
    IsRest
      (joined (run as_is 20 2 no_files input).ladder 2)
      (joined no_files 2 ++ entries as_is input)
run_keeps_newest_example = run_keeps_newest as_is 20 2 no_files input

empty-IsCapped : (cap : ℕ) → IsCapped cap no_files
empty-IsCapped cap k b e = ground arith

short : length (entry_of as_is (codes "up\n") noon) ≤ 40
unfolding entry_of
short = omega arith

run-IsCapped_example : IsCapped 40 (run as_is 20 2 no_files ((codes "up\n", noon) ∷ [])).ladder
run-IsCapped_example =
    run-IsCapped as_is 40 20 2 (omega arith) no_files ((codes "up\n", noon) ∷ []) (short, tt)
      (empty-IsCapped 40)

ltb_text-stamp_example : ltb_text (stamp noon) (stamp later) ≡ earlier noon later
ltb_text-stamp_example =
    ltb_text-stamp noon later
      (record {
        year_fits = omega arith;
        month_fits = omega arith;
        day_fits = omega arith;
        hour_fits = omega arith;
        minute_fits = omega arith;
        second_fits = omega arith;
        microsecond_fits = omega arith;
      })
      (record {
        year_fits = omega arith;
        month_fits = omega arith;
        day_fits = omega arith;
        hour_fits = omega arith;
        minute_fits = omega arith;
        second_fits = omega arith;
        microsecond_fits = omega arith;
      })

as_is-DecodesByLine : DecodesByLine as_is
as_is-DecodesByLine = record { nothing = refl; newline = λ p q. refl }

backlog_and_polls_example :
    let (backlog, seed) = read_new_lines as_is (some (codes "a\nb")) 0 in
    backlog ++ polls as_is (codes "a\nb") seed (codes "c\n" ∷ codes "d\n" ∷ [])
    ≡ (read_new_lines as_is (some (codes "a\nbc\nd\n")) 0).0
backlog_and_polls_example =
    backlog_and_polls as_is as_is-DecodesByLine (codes "a\nb") (codes "c\n" ∷ codes "d\n" ∷ [])

one_file-HasSegments : HasSegments one_file 1
one_file-HasSegments = record { present = at; gap = unfold exists in refl }
  where
    at : (k : ℕ) → 1 ≤ k → k ≤ 1 → exists one_file k ≡ true
    at zero h h' = ground arith
    at (suc zero) h h' = unfold exists in refl
    at (suc (suc k)) h h' = absurd (omega arith)

bytes_of-segment_files_example : bytes_of one_file (segment_files 5 one_file) ≡ joined one_file 1
bytes_of-segment_files_example =
    bytes_of-segment_files one_file 1 one_file-HasSegments 5 (omega arith)

abbrev web_lines : List (Option Text × Text)
web_lines = (some (codes "1"), codes "up") ∷ (some (codes "3"), codes "ready") ∷ []

abbrev db_lines : List (Option Text × Text)
db_lines = (some (codes "2"), codes "open") ∷ (none, codes "?") ∷ []

abbrev streams : List Stream
streams = (codes "web", web_lines) ∷ (codes "db", db_lines) ∷ []

web_lines-IsSorted : IsSorted (events_of (codes "alpha") (codes "web") web_lines)
unfolding events_of build_event ltb_text
web_lines-IsSorted = ((refl, tt), (tt, tt))

others : (codes "db" == codes "web") ≡ false
unfolding text_beq
others = refl

merge_sorted_keeps_service_example :
    filter (is_of (codes "web")) (merge_sorted (codes "alpha") streams)
    ≡ events_of (codes "alpha") (codes "web") web_lines
merge_sorted_keeps_service_example =
    merge_sorted_keeps_service (codes "alpha") (codes "web") web_lines []
      ((codes "db", db_lines) ∷ []) tt (others, tt) web_lines-IsSorted

live_events-apply_time_filter_example :
    live_events (codes "2") [] (codes "alpha") (codes "web") (codes "1\tup" ∷ codes "3\tok" ∷ [])
    ≡ apply_time_filter
        (events_of (codes "alpha") (codes "web") (parse_lines (codes "1\tup" ∷ codes "3\tok" ∷ [])))
        (codes "2")
        []
live_events-apply_time_filter_example =
    live_events-apply_time_filter (codes "2") [] (codes "alpha") (codes "web")
      (codes "1\tup" ∷ codes "3\tok" ∷ [])

abbrev messages : List (DateTime × Text)
messages = (noon, codes "up") ∷ (later, codes "a\tb") ∷ []

read_back_example : map parse_line (splitlines (file_text messages)) ≡ written messages
read_back_example = read_back messages ((refl, (refl, tt)), ((refl, (refl, (refl, tt))), tt))

plain_name : is_glob (codes "web") ≡ false
unfolding is_glob contains
plain_name = refl

fnmatchcase-literal_example :
    fnmatchcase (codes "web-worker") (codes "web") ≡ (codes "web-worker" == codes "web")
fnmatchcase-literal_example = fnmatchcase-literal (codes "web-worker") (codes "web") plain_name

abbrev patterns : List Text
patterns = codes "alpha/w*" ∷ codes "*/queue" ∷ []

abbrev sessions : List Text
sessions = codes "mp-alpha" ∷ codes "other-beta" ∷ []

expand_env_patterns-dead_example :
    (expand_env_patterns patterns (codes "web" ∷ []) (codes "mp") sessions).1
    ≡ filter (λ p. not (selects (codes "web" ∷ []) (running_envs (codes "mp") sessions) p)) patterns
expand_env_patterns-dead_example =
    expand_env_patterns-dead patterns (codes "web" ∷ []) (codes "mp") sessions

clean_server_env-leaked_example :
    leaked (clean_server_env ((codes "HOME", codes "/h") ∷ (codes "WINTER_ENV", codes "a") ∷ []))
    ≡ []
clean_server_env-leaked_example =
    clean_server_env-leaked ((codes "HOME", codes "/h") ∷ (codes "WINTER_ENV", codes "a") ∷ [])

abbrev greeting : Text
greeting = codes "it's ${HOST}:$1"

abbrev hosts : Dict Text Text
hosts = (codes "HOST", codes "a b") ∷ []

greeting_resolved : (interpolate greeting hosts).1 ≡ []
unfolding interpolate pieces lookup text_beq
greeting_resolved = refl

shell_expand_service_value-interpolate_example :
    read_word hosts plain (shell_expand_service_value greeting)
    ≡ some ((interpolate greeting hosts).0)
shell_expand_service_value-interpolate_example =
    shell_expand_service_value-interpolate hosts greeting greeting_resolved

interpolate-missing_example :
    (interpolate (codes "${A}${B}${A}") []).1
    ≡ filter (is_missing []) (referenced_vars (codes "${A}${B}${A}"))
interpolate-missing_example = interpolate-missing (codes "${A}${B}${A}") []
