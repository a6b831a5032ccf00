-- ===== src/Processing/Transactions.antt =====
-- src/processEventQueue.js: how the clusters of a chunk are processed and committed
-- (`processEventMap`, `_processEvent`, `_commitStatusInNewTx`), with the status maps of
-- src/EventQueueProcessorBase.js. What a handler writes to the database is a list of texts.
use event_queue.Prelude.{
  ◌≡◌, refl, ap, ◌∙◌, sym, String, str_eq, Bool, true, false, not, ◌&&◌, ◌||◌, none, some, List, [],
  ◌∷◌, ◌++◌, if◌then◌else◌, ◌==◌, arith, append_assoc, append-nil, any, Bool-cases, inl, inr,
}
use event_queue.Prelude.Dict.{insert}
use event_queue.Constants.{status_error}
use event_queue.Processor.Status.{
  Value, Reported, number, update, undefined, StatusMap, Tuples, collect, failed, failed_entries,
  set_event_status, handle_error_during_processing, add_status_to_all,
}
use event_queue.Processor.Status.Checks.{UpdateMap, normalize_status_map}

-- `outdated` is the answer of `isOutdatedAndKeepAlive`. The code keeps it for the whole instance; as
-- it can change between two clusters, each one has its own here.
pub data Handled : Type 0 where
  outdated : Handled
  returns : Tuples → Handled
  throws : Value → Handled

-- One entry of `eventProcessingMap`, and what happens to it: what its handler does and writes,
-- whether it asks for a rollback, and whether the commit of a transaction of it fails.
pub record Cluster : Type 0 where
  pub key : String
  pub ids : List String
  pub handled : Handled
  pub writes : List String
  pub should_rollback : Bool
  pub commit_fails : Bool

-- `_processEvent`: the shared map after it, and the map that it returns.
unfoldable pub process_event : (own_map : Bool) → Cluster → StatusMap → StatusMap × StatusMap
process_event own_map c shared = elim c.handled [
  | outdated ↦ (shared, [])
  | returns ts ↦ set_event_status own_map c.ids ts shared
  | throws error ↦ handle_error_during_processing error c.ids shared
]

abbrev pub any_error : UpdateMap → Bool
any_error [] = false
any_error ((id, u) ∷ m) = elim u.status [ none ↦ false | some s ↦ s == status_error ] || any_error m

-- `statusMapContainsError`.
unfoldable pub status_map_contains_error : StatusMap → Bool
unfolding normalize_status_map
status_map_contains_error m = any_error (normalize_status_map m)

pub record Effects : Type 0 where
  pub shared : StatusMap
  -- What was committed: the writes of handlers, and status maps.
  pub committed_writes : List String
  pub persisted : List StatusMap
  -- A transaction failed, so the limiter rejects.
  pub is_rejected : Bool

-- What is written in the transaction of a cluster: an outdated one does not get to its handler.
abbrev pub handler_writes : Cluster → List String
handler_writes c = elim c.handled [
  | outdated ↦ []
  | returns ts ↦ c.writes
  | throws error ↦ c.writes
]

-- The handler's transaction is rolled back and the statuses are written in a new one, or both are
-- committed together.
unfoldable pub commit_cluster : Cluster → StatusMap → Effects → Effects
unfolding status_map_contains_error
commit_cluster c status_map e =
    if c.commit_fails
    then record e { is_rejected = true }
    else if status_map_contains_error status_map || c.should_rollback
    then record e { persisted = e.persisted ++ status_map ∷ [] }
    else record e {
      committed_writes = e.committed_writes ++ handler_writes c;
      persisted = e.persisted ++ status_map ∷ [];
    }

-- The body of the iterator with `commitOnEventLevel`.
unfoldable pub process_isolated : Cluster → Effects → Effects
unfolding process_event commit_cluster
process_isolated c e =
    let (shared, status_map) = process_event true c e.shared in
    commit_cluster c status_map (record e { shared = shared })

unfoldable pub process_clusters : List Cluster → Effects → Effects
unfolding process_isolated
process_clusters [] e = e
process_clusters (c ∷ cs) e = process_clusters cs (process_isolated c e)

-- `handleErrorTx`, with the entries of the chunk.
unfoldable pub handle_error_tx : (entries : List String) → StatusMap → StatusMap
unfolding add_status_to_all
handle_error_tx entries shared = add_status_to_all entries status_error none shared

-- `processEventMap` with isolated transactions. The clusters may run at the same time: they share
-- nothing but the map of statuses, which only failing handlers write to.
unfoldable pub process_event_map : (entries : List String) → List Cluster → Effects → Effects
unfolding process_clusters handle_error_tx
process_event_map entries cs e =
    let e' = process_clusters cs e in
    if e'.is_rejected then record e' { shared = handle_error_tx entries e'.shared } else e'

-- A report with the status Error.
abbrev pub is_error_report : Reported → Bool
is_error_report (number s) = s == 3
is_error_report (update u) = elim u.status [ none ↦ false | some s ↦ s == 3 ]
is_error_report undefined = false

abbrev pub has_error : StatusMap → Bool
has_error m = any (λ e. is_error_report e.1) m

abbrev pub is_nil : List String → Bool
is_nil [] = true
is_nil (id ∷ ids) = false

-- The handler ran to its end and none of the reports that are collected from it is an Error. A
-- handler that throws reports an Error for each of its events.
abbrev pub reports_no_error : Cluster → Bool
reports_no_error c = elim c.handled [
  | outdated ↦ false
  | returns ts ↦ not (has_error (collect c.ids ts []))
  | throws error ↦ is_nil c.ids
]

-- The transaction of a handler is committed, with what the handler wrote.
abbrev pub succeeds : Cluster → Bool
succeeds c = not c.commit_fails && (not c.should_rollback && reports_no_error c)

abbrev pub writes_of : List Cluster → List String
writes_of [] = []
writes_of (c ∷ cs) = if succeeds c then c.writes ++ writes_of cs else writes_of cs

-- The map that a cluster returns does not depend on the shared one.
process_event-own :
    (c : Cluster) (shared : StatusMap)
    → (process_event true c shared).1 ≡ (process_event true c []).1
unfolding process_event set_event_status handle_error_during_processing
process_event-own c shared = ground arith

status_map_contains_error-has_error : (m : StatusMap) → status_map_contains_error m ≡ has_error m
unfolding status_map_contains_error normalize_status_map any
status_map_contains_error-has_error [] = refl
status_map_contains_error-has_error ((id, number s) ∷ m) =
    ap (λ b. s == 3 || b) (status_map_contains_error-has_error m)
status_map_contains_error-has_error ((id, update u) ∷ m) =
    ap (λ b. elim u.status [ none ↦ false | some s ↦ s == 3 ] || b)
      (status_map_contains_error-has_error m)
status_map_contains_error-has_error ((id, undefined) ∷ m) = status_map_contains_error-has_error m

has_error-insert :
    (id : String) (error : Value) (m : StatusMap) → has_error (insert id (failed error) m) ≡ true
unfolding insert any
has_error-insert id error [] = refl
has_error-insert id error ((k, r) ∷ m) = elim (Bool-cases (str_eq k id)) [
  | inl same ↦ rw same refl
  | inr other ↦ rw other (ground (arith, has_error-insert id error m))
]

has_error-failed_entries :
    (error : Value) (ids : List String) (m : StatusMap)
    → has_error (failed_entries error ids m) ≡ (not (is_nil ids) || has_error m)
unfolding failed_entries
has_error-failed_entries error [] m = refl
has_error-failed_entries error (id ∷ ids) m = ground (
  arith,
  has_error-failed_entries error ids (insert id (failed error) m),
  has_error-insert id error m,
)

-- What is committed for a cluster alone.
committed_alone : Cluster → List String
committed_alone c =
    if c.commit_fails || (has_error (process_event true c []).1 || c.should_rollback)
    then []
    else handler_writes c

process_isolated-committed_alone :
    (c : Cluster) (e : Effects)
    → (process_isolated c e).committed_writes ≡ e.committed_writes ++ committed_alone c
unfolding process_isolated commit_cluster committed_alone
process_isolated-committed_alone c e = ground (
  arith,
  process_event-own c e.shared,
  status_map_contains_error-has_error (process_event true c e.shared).1,
  append-nil e.committed_writes,
)

committed_alone_handled :
    (c : Cluster) (handled : Handled)
    → let c' = record c { handled = handled } in
      committed_alone c' ≡ (if succeeds c' then c'.writes else [])
unfolding committed_alone process_event set_event_status handle_error_during_processing any
committed_alone_handled c outdated = ground arith
committed_alone_handled c (returns ts) = ground arith
committed_alone_handled c (throws error) = ground (arith, has_error-failed_entries error c.ids [])

committed_alone-succeeds : (c : Cluster) → committed_alone c ≡ (if succeeds c then c.writes else [])
committed_alone-succeeds c = committed_alone_handled c c.handled

process_clusters-writes :
    (cs : List Cluster) (e : Effects)
    → (process_clusters cs e).committed_writes ≡ e.committed_writes ++ writes_of cs
unfolding process_clusters
process_clusters-writes [] e = sym (append-nil e.committed_writes)
process_clusters-writes (c ∷ cs) e =
    process_clusters-writes cs (process_isolated c e)
    ∙ ground (
      arith,
      process_isolated-committed_alone c e,
      committed_alone-succeeds c,
      append-nil e.committed_writes,
      append_assoc e.committed_writes c.writes (writes_of cs),
    )

-- With isolated transactions the committed writes are those of the clusters that succeed on their
-- own: the handler ran and did not throw, none of the reports collected from it is an Error, no
-- rollback was asked for, and the commit succeeded. Whether a handler's writes are committed does
-- not depend on any other cluster.
pub process_event_map-writes :
    (entries : List String) (cs : List Cluster) (e : Effects)
    → (process_event_map entries cs e).committed_writes ≡ e.committed_writes ++ writes_of cs
unfolding process_event_map
process_event_map-writes entries cs e = ground (arith, process_clusters-writes cs e)
