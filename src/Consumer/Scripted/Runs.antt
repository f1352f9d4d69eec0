-- ===== src/Consumer/Scripted/Runs.antt =====
-- Runs of the consumer in the scripted environment.
use rag_poc.Prelude.{
  none, ◌<◌, Text, str, ◌≡◌, ◌≢◌, ◌⊎◌, refl, List, [], ◌∷◌, In, text_eq, ok, Bool, some,
}
use rag_poc.Exec.{pure, raise, from_result, gets, modify, catch, ◌>>=◌}
use rag_poc.Event.Inbound.{parse, created_at_matches}
use rag_poc.Event.Outbound.{StatusEvent, make_indexed, make_failed, to_dict}
use rag_poc.Value.{lookup}
use rag_poc.Job.{run_job}
use rag_poc.Deadline
use rag_poc.Publisher
use rag_poc.Consumer.{
  Act, ConsumerInfo, new, delivered, armed, disarmed, acked, tried, ran, published, listed, deleted,
  note, set_held, call, ask, ms,
}
use rag_poc.Consumer.Entry.{
  decode, ignore_redis, ack, parse_entry, try_publish, build, status_for, may_retry,
  publish_attempts, publish, finish, guarded_job, handle, renew, retry, retry_held, report_poison,
}
use rag_poc.Consumer.Recovery.{
  take_new, take_entries, take_streams, read_once, on_page, claim_page, claim_one, pending_info,
  process_pending, process_claimed, claim_and_process, stays, cleanup, cleanup_consumers,
  recover_once,
}
use rag_poc.Consumer.Loop.{
  stopped, ensure_group, try_group, until_ready, back_off, guarded, is_held, retry_turn, read_turn,
  recover_turn, turn, turns, run,
}
use rag_poc.Consumer.Survival.{RaisesRedisOnly, run_never_raises}
use rag_poc.Consumer.Publishing.{Account, finish-Account}
use rag_poc.Consumer.Holding.{Retried, turn_of_held}
use rag_poc.Consumer.Evidence.{Reports, MayRun, IsHopeless}
use rag_poc.Consumer.Evidence.Loop.{
  start, acked_only_if_reported, ran_only_if_allowed, tried_only_with_cause, deleted_only_if_idle,
}
use rag_poc.Consumer.Scripted.{
  Script, scripted, settings, me, one_new, event, idle_other, gone, report, good_fields,
}

-- The acts of a run; to unfold it is to unfold the consumer.
log_of : Script → List Act
unfolding pure raise from_result gets modify catch ◌>>=◌ parse created_at_matches make_indexed
    make_failed to_dict lookup run_job Deadline.after Publisher.publish note set_held call ask ms
    decode ignore_redis ack parse_entry try_publish build status_for may_retry publish_attempts
    publish finish guarded_job handle renew retry retry_held report_poison take_new take_entries
    take_streams read_once on_page claim_page claim_one pending_info process_pending process_claimed
    claim_and_process stays cleanup cleanup_consumers recover_once ensure_group try_group
    until_ready back_off guarded is_held retry_turn read_turn recover_turn turn turns run text_eq
log_of w = (run scripted settings me 9 (start scripted settings me w)).1.log

-- What one_new leads to, the latest act first.
abbrev before_run : List Act
before_run = armed ∷ delivered new (str "7-0") good_fields ∷ []

abbrev before_try : List Act
before_try = disarmed ∷ ran event ∷ before_run

abbrev before_ack : List Act
before_ack = published report ∷ tried report ∷ before_try

one_new_log :
    (run scripted settings me 9 (start scripted settings me one_new)).1.log
    ≡ acked (str "7-0") ∷ before_ack
unfolding log_of
one_new_log = refl

acked_only_if_reported_example :
    IsHopeless scripted settings me (str "7-0") before_ack
    ⊎ ((status : StatusEvent) × Reports scripted settings me (str "7-0") status before_ack
        × In (published status) before_ack)
acked_only_if_reported_example =
    acked_only_if_reported scripted settings me 9 one_new [] before_ack (str "7-0") one_new_log

ran_only_if_allowed_example : (id : Text) × MayRun scripted settings me id event before_run
ran_only_if_allowed_example =
    ran_only_if_allowed scripted settings me 9 one_new
      (acked (str "7-0") ∷ published report ∷ tried report ∷ disarmed ∷ []) before_run event
      one_new_log

tried_only_with_cause_example : (id : Text) × Reports scripted settings me id report before_try
tried_only_with_cause_example =
    tried_only_with_cause scripted settings me 9 one_new (acked (str "7-0") ∷ published report ∷ [])
      before_try report one_new_log

idle_other_log :
    (run scripted settings me 9 (start scripted settings me idle_other)).1.log
    ≡ deleted (str "gone") ∷ listed gone ∷ []
unfolding log_of
idle_other_log = refl

deleted_only_if_idle_example :
    (c : ConsumerInfo) × In (listed c) (listed gone ∷ [])
    × (c.name ≡ str "gone")
    × (str "gone" ≢ me)
    × (c.pending ≡ 0)
    × (ms settings.cleanup_idle < c.idle)
deleted_only_if_idle_example =
    deleted_only_if_idle scripted settings me 9 idle_other [] (listed gone ∷ []) (str "gone")
      idle_other_log

xgroup_create-RaisesRedisOnly : RaisesRedisOnly scripted.xgroup_create
xgroup_create-RaisesRedisOnly = record { redis = λ w e h. absurd (cc h) }

run_never_raises_example :
    (b : Bool) × ((run scripted settings me 9 (start scripted settings me one_new)).0 ≡ ok b)
run_never_raises_example =
    run_never_raises scripted settings me xgroup_create-RaisesRedisOnly 9
      (start scripted settings me one_new)

-- A turn while the report of the entry is held.
turn_of_held_example :
    let t =
      turn scripted settings me 9 0 (record {
        world = one_new;
        held = some (str "7-0", report);
        held_failures = 0;
        log = [];
      }) in
    ((t.0 ≡ ok stopped) × (t.1.log ≡ []) × (t.1.held ≡ some (str "7-0", report)))
    ⊎ Retried scripted settings (str "7-0") report [] t.1
turn_of_held_example = turn_of_held scripted settings me 9 0 (str "7-0") report one_new 0 []

-- All three attempts are refused.
abbrev refusing : Script
refusing = record one_new { refusals = 9 }

finish-Account_example :
    let t =
      finish scripted settings
        (str "7-0")
        report
        0
        (record { world = refusing; held = none; held_failures = 0; log = [] }) in
    Account scripted settings report (str "7-0") 3 settings.min_idle refusing none [] t.0 t.1
finish-Account_example = finish-Account scripted settings report (str "7-0") 0 refusing none 0 []
