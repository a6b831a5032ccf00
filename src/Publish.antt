-- ===== src/Publish.antt =====
-- src/publishEvent.js: publishing events in a transaction. A date is given by its time, or is
-- malformed; the rows of the table are in `inserted`, in the order of the INSERT statements.
pub mod Twice
pub mod Checks
mod Examples
use event_queue.Prelude.{
  ℕ, String, Bool, true, false, not, ◌&&◌, ◌||◌, Option, none, some, List, [], ◌∷◌, ◌++◌,
  if◌then◌else◌,
}
use event_queue.Prelude.Results.{Result, ok, err, ◌>>=◌, ◌>>◌, throw_if}
use event_queue.Config.Event.{EventMap, EventConfig, is_missing, text_of}
use event_queue.Config.Access.{get_event_config}

pub data StartAfter : Type 0 where
  unset malformed : StartAfter
  date : ℕ → StartAfter

pub record NewEvent : Type 0 where
  pub type : String
  pub sub_type : String
  -- `none` is `undefined`.
  pub namespace : Option String
  pub start_after : StartAfter
  -- A text, or a value with its `JSON.stringify`.
  pub payload : String
  pub context : Option String

pub data PublishError : Type 0 where
  not_initialized unknown_event_type malformed_date manuel_periodic_event_insert : PublishError

pub record Options : Type 0 where
  pub skip_broadcast : Bool
  pub skip_insert_events_before_commit : Bool
  pub add_trace_context : Bool
  pub allow_not_existing_configuration : Bool

-- `config`, the next date of `cron-parser`, and the text of the current trace context.
pub record Environment : Type 0 where
  pub initialized : Bool
  pub namespace : String
  pub event_map : EventMap
  pub insert_events_before_commit : Bool
  pub next_date : String → ℕ
  pub trace_context : String

-- The default of `getEventConfig` for a namespace that is `undefined`.
abbrev pub config_of : Environment → NewEvent → Option EventConfig
config_of env e =
    get_event_config env.event_map (some (elim e.namespace [ none ↦ env.namespace | some n ↦ n ]))
      e.type e.sub_type

abbrev pub is_unset {ℓ} : {A : Type ℓ} → Option A → Bool
is_unset none = true
is_unset (some a) = false

abbrev pub is_malformed_date : StartAfter → Bool
is_malformed_date unset = false
is_malformed_date malformed = true
is_malformed_date (date t) = false

abbrev pub periodic : Option EventConfig → Bool
periodic none = false
periodic (some c) = c.is_periodic

-- The test is `eventConfig?.timeBucket && !(startAfter in event)`: no event has a field that is
-- named by its own start date, or `undefined`, so it holds whatever the event's date is.
abbrev pub bucket_date : Environment → Option EventConfig → StartAfter → StartAfter
bucket_date env none old = old
bucket_date env (some c) old =
    if is_missing c.time_bucket then old else date (env.next_date (text_of c.time_bucket))

-- An event with the fields that are set in it.
abbrev pub prepared : Environment → Options → NewEvent → NewEvent
prepared env o e = record e {
  context = if o.add_trace_context then some env.trace_context else e.context;
  start_after = bucket_date env (config_of env e) e.start_after;
  namespace = some (elim e.namespace [ none ↦ env.namespace | some n ↦ n ]);
}

-- The body of the loop over the events.
unfoldable pub prepare : Environment → Options → NewEvent → Result PublishError NewEvent
unfolding get_event_config
prepare env o e =
    let c = config_of env e in
    do
      throw_if (is_unset c && not o.allow_not_existing_configuration) unknown_event_type
      throw_if (is_malformed_date e.start_after) malformed_date
      throw_if (periodic c) manuel_periodic_event_insert
      ok (prepared env o e)

unfoldable pub prepare_all :
    Environment → Options → List NewEvent → Result PublishError (List NewEvent)
unfolding prepare
prepare_all env o [] = ok []
prepare_all env o (e ∷ es) = do e' ← prepare env o e; es' ← prepare_all env o es; ok (e' ∷ es')

-- A transaction: `_eventQueue`, and what was inserted with the flag that skips the broadcast.
pub record Tx : Type 0 where
  pub queued : List NewEvent
  -- The registered handler, with the flag it captured.
  pub handler : Option Bool
  pub inserted : List (NewEvent × Bool)

abbrev pub started : Tx
started = record { queued = []; handler = none; inserted = [] }

abbrev pub insert_all : Bool → List NewEvent → List (NewEvent × Bool)
insert_all skip [] = []
insert_all skip (e ∷ es) = (e, skip) ∷ insert_all skip es

-- `_addEventsToContext`.
unfoldable pub add_events_to_context : List NewEvent → Tx → Tx
add_events_to_context es tx = record tx { queued = tx.queued ++ es }

-- `_registerHandler`.
unfoldable pub register_handler : Bool → Tx → Tx
register_handler skip tx = record tx {
  handler = elim tx.handler [ none ↦ some skip | some s ↦ some s ];
}

unfoldable pub insert_now : Bool → List NewEvent → Tx → Tx
insert_now skip es tx = record tx { inserted = tx.inserted ++ insert_all skip es }

-- `publishEvent`: an error leaves the transaction as it was.
unfoldable pub publish_event : Environment → Options → List NewEvent → Tx → Result PublishError Tx
unfolding prepare_all add_events_to_context register_handler insert_now
publish_event env o es tx = do
  throw_if (not env.initialized) not_initialized
  es' ← prepare_all env o es
  let tx' = add_events_to_context es' tx
  ok (
      if env.insert_events_before_commit && not o.skip_insert_events_before_commit
      then register_handler o.skip_broadcast tx'
      else insert_now o.skip_broadcast es' tx')

-- The handler that runs before the commit.
unfoldable pub before_commit : Tx → Tx
unfolding insert_now
before_commit tx = elim tx.handler [
  | none ↦ tx
  | some skip ↦ elim tx.queued [
    | [] ↦ tx
    | e ∷ es ↦ record (insert_now skip (e ∷ es) tx) { queued = []; handler = none }
  ]
]
