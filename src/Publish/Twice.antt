-- ===== src/Publish/Twice.antt =====
-- src/publishEvent.js: which events a transaction inserts.
use event_queue.Prelude.{
  ◌≡◌, refl, ◌∙◌, ap, sym, Bool, true, false, not, ◌&&◌, some, List, [], ◌∷◌, ◌++◌, if◌then◌else◌,
  append_assoc, append-nil, All,
}
use event_queue.Prelude.Results.{Result, ok, ◌>>=◌, throw_if_passed, >>=-eq-ok}
use event_queue.Publish.{
  NewEvent, Options, Environment, PublishError, Tx, started, insert_all, prepare_all,
  add_events_to_context, register_handler, insert_now, publish_event, before_commit,
  not_initialized,
}

-- What `publishEvent` made of the transaction, if it returned.
publish_event-eq-ok :
    (env : Environment) (o : Options) (es : List NewEvent) (tx tx' : Tx)
    → publish_event env o es tx ≡ ok tx'
    → (es' : List NewEvent) × (prepare_all env o es ≡ ok es')
      × ((if env.insert_events_before_commit && not o.skip_insert_events_before_commit
            then register_handler o.skip_broadcast (add_events_to_context es' tx)
            else insert_now o.skip_broadcast es' (add_events_to_context es' tx))
          ≡ tx')
unfolding publish_event
publish_event-eq-ok env o es tx tx' h =
    let (initialized, h₁) = throw_if_passed (not env.initialized) not_initialized _ h in
    let (es', prepared, h₂) = >>=-eq-ok (prepare_all env o es) _ h₁ in (es', prepared, cc)

-- Several calls of `publishEvent` in one transaction.
unfoldable pub publish_calls :
    Environment → List (Options × List NewEvent) → Tx → Result PublishError Tx
unfolding publish_event
publish_calls env [] tx = ok tx
publish_calls env ((o, es) ∷ calls) tx = publish_event env o es tx >>= publish_calls env calls

-- The events of the calls, as they were prepared.
unfoldable pub prepare_calls :
    Environment → List (Options × List NewEvent) → Result PublishError (List NewEvent)
unfolding prepare_all
prepare_calls env [] = ok []
prepare_calls env ((o, es) ∷ calls) = do
  es' ← prepare_all env o es
  rest ← prepare_calls env calls
  ok (es' ++ rest)

abbrev pub IsDeferred : Options × List NewEvent → Type 0
IsDeferred call = call.0.skip_insert_events_before_commit ≡ false

-- A call with the handler: the events wait.
publish_event-deferred :
    (env : Environment) (o : Options) (es : List NewEvent) (tx tx' : Tx)
    → env.insert_events_before_commit ≡ true
    → o.skip_insert_events_before_commit ≡ false
    → publish_event env o es tx ≡ ok tx'
    → (es' : List NewEvent) × (prepare_all env o es ≡ ok es')
      × (tx'.queued ≡ tx.queued ++ es')
      × (tx'.inserted ≡ tx.inserted)
      × (tx'.handler ≡ (register_handler o.skip_broadcast tx).handler)
unfolding register_handler add_events_to_context
publish_event-deferred env o es tx tx' on deferred h =
    let (es', prepared, eq) = publish_event-eq-ok env o es tx tx' h in
    let eq' = rw (on, deferred) at eq in
    (
      es',
      prepared,
      sym (ap (λ t. t.queued) eq'),
      sym (ap (λ t. t.inserted) eq'),
      sym (ap (λ t. t.handler) eq'),
    )

publish_calls-deferred :
    (env : Environment) (calls : List (Options × List NewEvent)) (tx tx' : Tx) (skip : Bool)
    → env.insert_events_before_commit ≡ true
    → All IsDeferred calls
    → tx.handler ≡ some skip
    → publish_calls env calls tx ≡ ok tx'
    → (es : List NewEvent) × (prepare_calls env calls ≡ ok es)
      × (tx'.queued ≡ tx.queued ++ es)
      × (tx'.inserted ≡ tx.inserted)
      × (tx'.handler ≡ some skip)
unfolding publish_calls prepare_calls register_handler
publish_calls-deferred env [] tx tx' skip on all armed h =
    let eq : tx ≡ tx' = cc in
    (
      [],
      refl,
      sym (ap (λ t. t.queued) eq) ∙ sym (append-nil tx.queued),
      sym (ap (λ t. t.inserted) eq),
      sym (ap (λ t. t.handler) eq) ∙ armed,
    )
publish_calls-deferred env ((o, es) ∷ calls) tx tx' skip on (first, all) armed h =
    let (tx₁, now, rest) = >>=-eq-ok (publish_event env o es tx) _ h in
    let (es', prepared, queued, inserted, handler) =
      publish_event-deferred env o es tx tx₁ on first now in
    let (es'', prepared', queued', inserted', handler') =
      publish_calls-deferred env calls tx₁ tx' skip on all (handler ∙ rw armed refl) rest in
    (
      es' ++ es'',
      rw (prepared, prepared') refl,
      queued' ∙ ap (λ q. q ++ es'') queued ∙ append_assoc tx.queued es' es'',
      inserted' ∙ inserted,
      handler',
    )

commit_waiting :
    (skip : Bool) (es : List NewEvent) (tx : Tx)
    → tx.handler ≡ some skip
    → tx.queued ≡ es
    → (before_commit tx).inserted ≡ tx.inserted ++ insert_all skip es
unfolding before_commit insert_now
commit_waiting skip [] tx handler queued = rw (handler, queued) (sym (append-nil tx.inserted))
commit_waiting skip (e ∷ es) tx handler queued = rw (handler, queued) refl

-- Where every call of a transaction waits for the commit, the commit inserts the events of all calls
-- once and in their order, with the broadcast flag of the first call.
pub published_once :
    (env : Environment) (o : Options) (es : List NewEvent) (calls : List (Options × List NewEvent))
    (tx : Tx)
    → env.insert_events_before_commit ≡ true
    → All IsDeferred ((o, es) ∷ calls)
    → publish_calls env ((o, es) ∷ calls) started ≡ ok tx
    → (all : List NewEvent) × (prepare_calls env ((o, es) ∷ calls) ≡ ok all)
      × ((before_commit tx).inserted ≡ insert_all o.skip_broadcast all)
unfolding publish_calls prepare_calls register_handler
published_once env o es calls tx on (first, all) h =
    let (tx₁, now, rest) = >>=-eq-ok (publish_event env o es started) _ h in
    let (es', prepared, queued, inserted, handler) =
      publish_event-deferred env o es started tx₁ on first now in
    let (es'', prepared', queued', inserted', handler') =
      publish_calls-deferred env calls tx₁ tx o.skip_broadcast on all handler rest in
    (
      es' ++ es'',
      rw (prepared, prepared') refl,
      commit_waiting o.skip_broadcast (es' ++ es'') tx handler'
            (queued' ∙ ap (λ q. q ++ es'') queued)
          ∙ ap (λ i. i ++ insert_all o.skip_broadcast (es' ++ es'')) (inserted' ∙ inserted),
    )

-- A call that inserts at once also leaves its events to the handler: if a later call of the same
-- transaction waits for the commit, the commit inserts them a second time.
pub published_twice :
    (env : Environment) (o₁ o₂ : Options) (es₁ es₂ : List NewEvent) (tx₁ tx₂ : Tx)
    → env.insert_events_before_commit ≡ true
    → o₁.skip_insert_events_before_commit ≡ true
    → o₂.skip_insert_events_before_commit ≡ false
    → publish_event env o₁ es₁ started ≡ ok tx₁
    → publish_event env o₂ es₂ tx₁ ≡ ok tx₂
    → (es₁' es₂' : List NewEvent) × (prepare_all env o₁ es₁ ≡ ok es₁')
      × (prepare_all env o₂ es₂ ≡ ok es₂')
      × ((before_commit tx₂).inserted
          ≡ insert_all o₁.skip_broadcast es₁' ++ insert_all o₂.skip_broadcast (es₁' ++ es₂'))
unfolding insert_now add_events_to_context register_handler
published_twice env o₁ o₂ es₁ es₂ tx₁ tx₂ on at_once deferred h₁ h₂ =
    let (es₁', prepared₁, eq) = publish_event-eq-ok env o₁ es₁ started tx₁ h₁ in
    let eq' = rw (on, at_once) at eq in
    let (es₂', prepared₂, queued, inserted, handler) =
      publish_event-deferred env o₂ es₂ tx₁ tx₂ on deferred h₂ in
    (
      es₁',
      es₂',
      prepared₁,
      prepared₂,
      commit_waiting o₂.skip_broadcast (es₁' ++ es₂') tx₂
            (handler ∙ ap (λ t. (register_handler o₂.skip_broadcast t).handler) (sym eq'))
            (queued ∙ ap (λ t. t.queued ++ es₂') (sym eq'))
          ∙ ap (λ i. i ++ insert_all o₂.skip_broadcast (es₁' ++ es₂'))
              (inserted ∙ sym (ap (λ t. t.inserted) eq')),
    )
