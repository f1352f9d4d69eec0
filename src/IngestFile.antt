-- ===== src/IngestFile.antt =====
-- services/rag-service/src/rag/tools/ingest_file.py. The file, SHA-256, uuid4, the clocks, json and the
-- clients of MinIO and Redis are parameters; what it prints is left out.
pub mod Accepted
pub mod Log
mod Tests
use rag_poc.Prelude.{
  ℕ, zero, suc, ◌+◌, Text, str, Bool, true, false, Option, none, some, List, [], ◌∷◌, ◌++◌, text_eq,
  ltb, take, drop, length, if◌then◌else◌, Result, ok, err,
}
use rag_poc.Value.{Value, int, text, object, Fields, end, field, lookup, pos, Moment}
use rag_poc.Failure.{Failure, is_redis, invalid_event, other_error}
use rag_poc.Exec.{Exec, pure, raise, from_result, modify, catch, ◌>>=◌, ◌>>◌}
use rag_poc.Event.{schema_version}
use rag_poc.Event.Inbound.{IngestEvent, parse}
use rag_poc.Startup.{Exit, exits, dies}

-- put_object returned, or raised one of the exceptions that run catches, or another.
pub data Upload : Type 0 where
  stored refused : Upload
  broke : Failure → Upload

-- An entry of the status stream: its id and its fields.
abbrev pub Entry : Type 0
Entry = Text × Fields

pub record Environment : Type 1 where
  pub World : Type 0
  -- path.read_bytes(): none at an OSError
  pub content : Option (List ℕ)
  pub filename : Text
  pub sha256 : List ℕ → Text
  pub uuid : World → Text × World
  -- format_timestamp(now())
  pub now : World → Text × World
  pub clock : World → ℕ × World
  pub dumps : Fields → Text
  pub loads : Value → Option Value
  pub from_iso : Text → Option Moment
  pub put_object : Text → List ℕ → World → Upload × World
  pub newest_status : Exec World (List Entry)
  pub xadd : Fields → Exec World (Unit {0})
  pub xread : Text → Exec World (List (Text × List Entry))

-- What is changed outside, for the statements about it: the program keeps no such record.
pub data Act : Type 0 where
  uploaded : Text → List ℕ → Act
  added : Fields → Act

pub record State (W : Type 0) : Type 0 where
  pub world : W
  pub log : List Act

-- object_key
unfoldable pub object_key : Text → Text
object_key digest = take 2 digest ++ (str "/" ++ (take 2 (drop 2 digest) ++ (str "/" ++ digest)))

-- the document of the payload
abbrev pub document : Text → Text → Text → List ℕ → Text → Fields
document id digest filename data' created_at = field (str "id") (text id) (
    field (str "hash") (text digest) (
      field (str "filename") (text filename) (
        field (str "bucket_path") (text (object_key digest)) (
          field (str "size") (int (pos (length data'))) (
            field (str "attempts") (int (pos 0)) (
              field (str "created_at") (text created_at)
                (field (str "schema_version") (int (pos schema_version)) end)))))))

-- the fields of the entry
abbrev pub entry_of : Text → Fields
entry_of payload =
    field (str "event_type") (text (str "IngestionRequest"))
      (field (str "payload") (text payload) end)

module _ (env : Environment) where
  open env use {World}

  abbrev pub Code : Type 0 → Type 0
  Code = Exec (State World)

  unfoldable pub call : {A : Type 0} → Exec World A → Code A
  call m s = let (r, w) = m s.world in (r, record s { world = w })

  unfoldable pub ask : {A : Type 0} → (World → A × World) → Code A
  unfolding pure
  ask f s = let (a, w) = f s.world in pure a (record s { world = w })

  -- newest[0][0] if newest else "0-0"
  abbrev id_of : List Entry → Text
  id_of [] = str "0-0"
  id_of (e ∷ es) = e.0

  -- _last_status_id
  unfoldable pub last_status_id : Code Text
  unfolding call
  last_status_id = do newest ← call env.newest_status; pure (id_of newest)

  -- payload.get(...) is the text
  abbrev is_text : Option Value → Text → Bool
  is_text (some (text t)) expected = text_eq t expected
  is_text _ expected = false

  -- json.loads(fields.get("payload", "")); none where it raises ValueError
  abbrev status_of : Option Value → Option Value
  status_of none = env.loads (text [])
  status_of (some v) = env.loads v

  abbrev verdict : Text → Option Value → Option ℕ
  verdict digest (some (object payload)) =
      if is_text (lookup (str "hash") payload) digest
      then some (if is_text (lookup (str "status") payload) (str "INDEXED") then 0 else 1)
      else none
  verdict digest _ = none

  -- for entry_id, fields in entries: the exit code, or the last id that was read
  unfoldable pub scan_entries : Text → Text → List Entry → Option ℕ × Text
  scan_entries digest last [] = (none, last)
  scan_entries digest last ((id, fields) ∷ entries) =
      let rest = scan_entries digest id entries in
      elim (verdict digest (status_of (lookup (str "payload") fields))) [
        | some code ↦ (some code, id)
        | none ↦ rest
      ]

  -- for _, entries in client.xread(...)
  unfoldable pub scan : Text → Text → List (Text × List Entry) → Option ℕ × Text
  unfolding scan_entries
  scan digest last [] = (none, last)
  scan digest last ((stream, entries) ∷ streams) =
      let (found, last') = scan_entries digest last entries in
      let rest = scan digest last' streams in
      elim found [ some code ↦ (some code, last') | none ↦ rest ]

  -- the loop of _wait; none means that the fuel ran out
  unfoldable pub wait_until : ℕ → ℕ → Text → Text → Code (Option ℕ)
  unfolding scan
  wait_until zero deadline digest last = pure none
  wait_until (suc fuel) deadline digest last = do
    now ← ask env.clock
    if ltb now deadline
        then (do
          streams ← call (env.xread last)
          let (found, last') = scan digest last streams
          elim found [
            | some code ↦ pure (some code)
            | none ↦ wait_until fuel deadline digest last'
          ])
        else pure (some 3)

  -- _wait
  unfoldable pub wait_for : ℕ → Text → Text → ℕ → Code (Option ℕ)
  unfolding wait_until ask
  wait_for fuel after digest seconds = do
    now ← ask env.clock
    wait_until fuel (now + seconds) digest after

  unfoldable pub note : Act → Code (Unit {0})
  unfolding modify
  note a = modify (λ s. record s { log = a ∷ s.log })

  -- the last `try`; after XADD the entry counts as added only where it returned
  unfoldable pub publish : ℕ → Option ℕ → Text → Text → Code (Option ℕ)
  unfolding last_status_id wait_for note call
  publish fuel wait digest payload = do
    after ← last_status_id
    call (env.xadd (entry_of payload))
    note (added (entry_of payload))
    elim wait [ none ↦ pure (some 0) | some seconds ↦ wait_for fuel after digest seconds ]

  -- the except clause of the last `try`
  abbrev pub ended : Result Failure (Option ℕ) → Option Exit
  ended (ok none) = none
  ended (ok (some code)) = some (exits code)
  ended (err e) = if is_redis e then some (exits 2) else some (dies e)

  abbrev pub after_upload :
      ℕ → Option ℕ → List ℕ → Text → Upload → State World → Option Exit × State World
  after_upload fuel wait content payload refused s = (some (exits 2), s)
  after_upload fuel wait content payload (broke e) s = (some (dies e), s)
  after_upload fuel wait content payload stored s =
      let digest = env.sha256 content in
      let (r, s') =
        publish fuel wait digest payload
          (record s { log = uploaded (object_key digest) content ∷ s.log }) in
      (ended r, s')

  abbrev pub after_parse :
      {E : Type 0}
      → (E → Failure)
      → ℕ
      → Option ℕ
      → List ℕ
      → Text
      → Result E IngestEvent
      → World
      → Option Exit × State World
  after_parse invalid fuel wait content payload (err e) w =
      (some (dies (invalid e)), record { world = w; log = [] })
  after_parse invalid fuel wait content payload (ok event) w =
      let (u, w') = env.put_object (object_key (env.sha256 content)) content w in
      after_upload fuel wait content payload u (record { world = w'; log = [] })

  abbrev pub payload_of : List ℕ → Text → Text → Text
  payload_of content id created_at =
      env.dumps (document id (env.sha256 content) env.filename content created_at)

  abbrev pub with_content : ℕ → Option ℕ → Option (List ℕ) → World → Option Exit × State World
  with_content fuel wait none w = (some (exits 2), record { world = w; log = [] })
  with_content fuel wait (some content) w =
      let (id, w1) = env.uuid w in
      let (created_at, w2) = env.now w1 in
      let payload = payload_of content id created_at in
      after_parse invalid_event fuel wait content payload
        (parse env.loads env.from_iso (text payload)) w2

  -- run; none means that the fuel of the wait ran out
  unfoldable pub run : ℕ → Option ℕ → World → Option Exit × State World
  unfolding publish object_key
  run fuel wait w = with_content fuel wait env.content w
