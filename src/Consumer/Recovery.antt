-- ===== src/Consumer/Recovery.antt =====
-- services/rag-service/src/rag/transport/stream_consumer.py: reading new entries, taking over
-- pending ones, and deleting idle consumers.
use Prim.Native.Nat.{min, max}
use rag_poc.Prelude.{
  ℕ, zero, suc, Text, str, Bool, true, false, not, ◌||◌, Option, none, some, List, [], ◌∷◌, text_eq,
  ltb, leb, ◌==◌, if◌then◌else◌,
}
use rag_poc.Value.{Fields}
use rag_poc.Failure.{is_redis}
use rag_poc.Exec.{Exec, pure, raise, gets, catch, ◌>>=◌, ◌>>◌}
use rag_poc.Event.Inbound.{IngestEvent}
use rag_poc.Consumer.{
  Env, Settings, State, RawEntry, ConsumerInfo, new, reclaimed, delivered, counted, listed, deleted,
  note, call, ms,
}
use rag_poc.Consumer.Entry.{ignore_redis, parse_entry, handle, report_poison}

abbrev max_claim_pages : ℕ
max_claim_pages = 100

module _ (env : Env) (settings : Settings) where
  open env use {World}

  -- One entry of an XREADGROUP reply.
  unfoldable pub take_new : RawEntry → Exec (State World) (Unit {0})
  take_new (id, fields) = do
    note (delivered new id fields)
    event ← parse_entry env id fields
    elim event [ none ↦ pure tt | some e ↦ do handle env settings id e; pure tt ]

  unfoldable pub take_entries : List RawEntry → Exec (State World) (Unit {0})
  take_entries [] = pure tt
  take_entries (entry ∷ rest) = do take_new entry; take_entries rest

  unfoldable pub take_streams : List (Text × List RawEntry) → Exec (State World) (Unit {0})
  take_streams [] = pure tt
  take_streams ((stream, entries) ∷ rest) = do take_entries entries; take_streams rest

  -- read_once
  unfoldable pub read_once : Exec (State World) (Unit {0})
  read_once = do
    response ←
        call (env.xreadgroup (max 1 (min (ms settings.read_block) (ms settings.recovery_interval))))
    take_streams response

  unfoldable pub first_entry : List RawEntry → Option RawEntry
  first_entry [] = none
  first_entry (entry ∷ rest) = some entry

  -- What one reply decides: take its first entry, stop at the end of the list, or ask on.
  unfoldable pub on_page :
      Option RawEntry
      → Text
      → Exec (State World) (Option RawEntry)
      → Exec (State World) (Option RawEntry)
  on_page (some (id, fields)) next_cursor more = do
    note (delivered reclaimed id fields)
    pure (some (id, fields))
  on_page none next_cursor more = if text_eq next_cursor (str "0-0") then pure none else more

  -- the loop of _claim_one, by the pages left
  unfoldable pub claim_page : ℕ → Text → Exec (State World) (Option RawEntry)
  unfolding first_entry on_page
  claim_page zero cursor = pure none
  claim_page (suc pages) cursor = do
    page ← call (env.xautoclaim (ms settings.min_idle) cursor)
    on_page (first_entry page.entries) page.next_cursor (claim_page pages page.next_cursor)

  -- _claim_one
  unfoldable pub claim_one : Exec (State World) (Option RawEntry)
  claim_one = claim_page max_claim_pages (str "0-0")

  unfoldable pub first_pending : Text → List (ℕ × Text) → Exec (State World) (Option (ℕ × Text))
  first_pending id [] = pure none
  first_pending id ((deliveries, owner) ∷ rest) = do
    note (counted id deliveries owner)
    pure (some (deliveries, owner))

  -- _pending_info
  unfoldable pub pending_info : Text → Exec (State World) (Option (ℕ × Text))
  unfolding first_pending
  pending_info id = do rows ← call (env.xpending_range id); first_pending id rows

module _ (env : Env) (settings : Settings) (name : Text) where
  open env use {World}

  -- What the deliveries and the owner decide: skip, report poison, or run the job. The result says
  -- whether the recovery loop goes on.
  unfoldable pub process_pending : Text → IngestEvent → Option (ℕ × Text) → Exec (State World) Bool
  process_pending id event none = pure true
  process_pending id event (some (deliveries, owner)) =
      if text_eq owner name
      then (do
        if ltb settings.poison_threshold deliveries
            then report_poison env settings id event deliveries
            else handle env settings id event
        gets (λ s. elim s.held [ none ↦ true | some h ↦ false ]))
      else pure true

  -- The rest of the loop's body, with `continue` at a RedisError of _pending_info.
  unfoldable pub process_claimed : Text → Option Fields → Exec (State World) Bool
  process_claimed id fields = do
    event ← parse_entry env id fields
    elim event [
      | none ↦ pure true
      | some e ↦ do
        info ←
            catch (do i ← pending_info env settings id; pure (some i))
              (λ x. if is_redis x then pure none else raise x)
        elim info [ none ↦ pure true | some i ↦ process_pending id e i ]
    ]

  -- _claim_and_process, by the jobs left
  unfoldable pub claim_and_process : ℕ → Exec (State World) (Unit {0})
  claim_and_process zero = pure tt
  claim_and_process (suc jobs) = do
    claimed ← claim_one env settings
    elim claimed [
      | none ↦ pure tt
      | some (id, fields) ↦ do
        go_on ← process_claimed id fields
        if go_on then claim_and_process jobs else pure tt
    ]

  -- the test of _cleanup_consumers
  unfoldable pub stays : ConsumerInfo → Bool
  stays c = text_eq c.name name || (not (c.pending == 0) || leb c.idle (ms settings.cleanup_idle))

  unfoldable pub cleanup : List ConsumerInfo → Exec (State World) (Unit {0})
  cleanup [] = pure tt
  cleanup (c ∷ rest) = do
    note (listed c)
    if stays c then pure tt else (do note (deleted c.name); call (env.xgroup_delconsumer c.name))
    cleanup rest

  -- _cleanup_consumers
  unfoldable pub cleanup_consumers : Exec (State World) (Unit {0})
  cleanup_consumers = ignore_redis env (do consumers ← call env.xinfo_consumers; cleanup consumers)

  -- recover_once: the claim's exception is raised again after the cleanup
  unfoldable pub recover_once : Exec (State World) (Unit {0})
  recover_once = do
    claim_error ←
        catch (do claim_and_process settings.max_recovery_jobs; pure none) (λ e. pure (some e))
    cleanup_consumers
    elim claim_error [ none ↦ pure tt | some e ↦ raise e ]
