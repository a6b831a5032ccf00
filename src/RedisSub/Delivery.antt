-- ===== src/RedisSub/Delivery.antt =====
-- src/redis/redisSub.js and src/runner/runnerHelper.js: a message is processed by one instance.
use event_queue.Prelude.{
  ◌≡◌, refl, ap, ◌∙◌, ℕ, suc, ◌+◌, ◌≤◌, ◌<◌, String, Bool, true, false, Option, none, some, List,
  [], ◌∷◌, if◌then◌else◌, All, any, length, flag, arith, Option-cases, inl, inr, ltb, eq_refl,
}
use event_queue.Lock.{acquire_lock_redis}
use event_queue.Lock.Stores.{Redis}
use event_queue.Config.Event.{EventConfig}
use event_queue.OpenEvents.{OpenEntry}
use event_queue.RedisSub.{
  Instance, message_key, message_handler_process_events, exec, exec_if_accepted, deliver,
}

-- The event is configured for one instance at a time, wherever it is accepted.
abbrev pub IsExclusive : OpenEntry → Instance → Type 0
IsExclusive o i =
    (c : EventConfig)
    → message_handler_process_events o i ≡ some c
    → c.multi_instance_processing ≡ false

abbrev is_config : Option EventConfig → Bool
is_config none = false
is_config (some c) = true

abbrev pub is_accepted : OpenEntry → Instance → Bool
is_accepted o i = is_config (message_handler_process_events o i)

-- `config.namespace` of the instance.
abbrev pub HasNamespace : Option String → Instance → Type 0
HasNamespace own i = i.own_namespace ≡ own

-- The starts lie between a time and the end of a lock that is taken then.
abbrev pub Within : (timeout t : ℕ) → List Instance → Type 0
Within timeout t is = All (λ i. (t ≤ i.time) × (i.time < t + timeout)) is

-- The starts are in their order, and none is later than the end of a lock taken at another one.
abbrev pub Ordered : (timeout : ℕ) → List Instance → Type 0
Ordered timeout [] = Unit
Ordered timeout (i ∷ is) = Within timeout i.time is × Ordered timeout is

module _ (redis : Redis) (tenant : Option String) (lock_id : String) (own : Option String)
    (global_tx_timeout : ℕ) (date : ℕ → String) (o : OpenEntry) where
  open redis use {Store, get, set, get-set, set_nx_free, set_nx_taken}

  abbrev key : String
  key = message_key tenant lock_id own

  abbrev delivered : List Instance → Store → List Instance
  delivered is s = (deliver redis tenant lock_id global_tx_timeout date o is s).0

  exec_taken :
      (c : EventConfig) (time : ℕ) (s : Store) {held : String}
      → c.multi_instance_processing ≡ false
      → get time key s ≡ some held
      → exec redis tenant lock_id global_tx_timeout date own c time s ≡ (false, s)
  unfolding exec acquire_lock_redis
  exec_taken c time s one taken =
      rw one (set_nx_taken time global_tx_timeout key (date time) s taken)

  exec_free :
      (c : EventConfig) (time : ℕ) (s : Store)
      → c.multi_instance_processing ≡ false
      → get time key s ≡ none
      → exec redis tenant lock_id global_tx_timeout date own c time s
        ≡ (true, set time key (date time) global_tx_timeout s)
  unfolding exec acquire_lock_redis
  exec_free c time s one free = rw one (set_nx_free time global_tx_timeout key (date time) s free)

  run_of : Instance → Store → Bool × Store
  run_of i s =
      exec_if_accepted redis tenant lock_id global_tx_timeout date i.own_namespace
        (message_handler_process_events o i) i.time s

  delivered_step :
      (i : Instance) (is : List Instance) (s : Store)
      → delivered (i ∷ is) s
        ≡ (if (run_of i s).0 then i ∷ delivered is (run_of i s).1 else delivered is (run_of i s).1)
  unfolding deliver exec run_of
  delivered_step i is s = refl

  delivered_by :
      (i : Instance) (is : List Instance) (s : Store) (r : Bool × Store)
      → run_of i s ≡ r
      → delivered (i ∷ is) s ≡ (if r.0 then i ∷ delivered is r.1 else delivered is r.1)
  delivered_by i is s r same =
      delivered_step i is s
      ∙ ap (λ (q : Bool × Store). if q.0 then i ∷ delivered is q.1 else delivered is q.1) same

  run_of-ignored :
      (i : Instance) (s : Store)
      → message_handler_process_events o i ≡ none
      → run_of i s ≡ (false, s)
  unfolding run_of
  run_of-ignored i s ignored =
      ap
        (λ a.
          exec_if_accepted redis tenant lock_id global_tx_timeout date i.own_namespace a i.time s)
        ignored

  run_of-accepted :
      (i : Instance) (c : EventConfig) (s : Store)
      → i.own_namespace ≡ own
      → message_handler_process_events o i ≡ some c
      → run_of i s ≡ exec redis tenant lock_id global_tx_timeout date own c i.time s
  unfolding run_of
  run_of-accepted i c s same accepted =
      ap
        (λ a.
          exec_if_accepted redis tenant lock_id global_tx_timeout date i.own_namespace a i.time s)
        accepted
      ∙ ap (λ n. exec redis tenant lock_id global_tx_timeout date n c i.time s) same

  -- The lock is held for some instance from a time on.
  abbrev IsHeld : ℕ → Store → Type 0
  IsHeld t s =
      (v : String) × ((later : ℕ)
        → t ≤ later
        → later < t + global_tx_timeout
        → get later key s ≡ some v)

  set-IsHeld : (t : ℕ) (v : String) (s : Store) → IsHeld t (set t key v global_tx_timeout s)
  set-IsHeld t v s = (
    v,
    λ later from until.
        let live : ltb later (t + global_tx_timeout) ≡ true = ground (arith, until) in
        get-set t later global_tx_timeout key key v s from ∙ rw (eq_refl key) (rw live refl),
  )

  delivered-held :
      (t : ℕ) (is : List Instance) (s : Store)
      → All (HasNamespace own) is
      → All (IsExclusive o) is
      → Within global_tx_timeout t is
      → IsHeld t s
      → delivered is s ≡ []
  unfolding deliver
  delivered-held t [] s sames exclusive within held = refl
  delivered-held t (i ∷ is) s (same, sames) (one, exclusive) ((from, until), within) (v, held) =
      let rest = delivered-held t is s sames exclusive within (v, held) in
      elim (Option-cases (message_handler_process_events o i)) [
        | inl ignored ↦ delivered_by i is s (false, s) (run_of-ignored i s ignored) ∙ rest
        | inr (c, accepted) ↦
            delivered_by i is s (false, s)
              (run_of-accepted i c s same accepted
                ∙ exec_taken c i.time s (one c accepted) (held i.time from until))
            ∙ rest
      ]

  delivered_once :
      (is : List Instance) (s : Store)
      → All (HasNamespace own) is
      → All (IsExclusive o) is
      → Ordered global_tx_timeout is
      → ((time : ℕ) → get time key s ≡ none)
      → length (delivered is s) ≡ flag (any (is_accepted o) is)
  unfolding deliver any
  delivered_once [] s sames exclusive ordered free = refl
  delivered_once (i ∷ is) s (same, sames) (one, exclusive) (within, ordered) free =
      elim (Option-cases (message_handler_process_events o i)) [
        | inl ignored ↦
            let is_ignored : is_accepted o i ≡ false = ap is_config ignored in
            ap length (delivered_by i is s (false, s) (run_of-ignored i s ignored))
            ∙ delivered_once is s sames exclusive ordered free
            ∙ rw is_ignored refl
        | inr (c, accepted) ↦
            let s' = set i.time key (date i.time) global_tx_timeout s in
            let is_taken : is_accepted o i ≡ true = ap is_config accepted in
            ap length (
              delivered_by i is s (true, s')
                (run_of-accepted i c s same accepted
                  ∙ exec_free c i.time s (one c accepted) (free i.time)))
            ∙ ap (λ xs. suc (length xs))
                (delivered-held i.time is s' sames exclusive within
                  (set-IsHeld i.time (date i.time) s))
            ∙ rw is_taken refl
      ]

-- A message whose event is not configured for several instances is processed by exactly one of the
-- instances that accept it, if there are any: all instances have the same namespace in their
-- configuration, the lock of the message is new, and the instances start its events within the time
-- in which that lock holds.
pub deliver_once :
    (redis : Redis) (tenant : Option String) (lock_id : String) (own : Option String)
    (global_tx_timeout : ℕ) (date : ℕ → String) (o : OpenEntry) (is : List Instance)
    (s : redis.Store)
    → All (HasNamespace own) is
    → All (IsExclusive o) is
    → Ordered global_tx_timeout is
    → ((time : ℕ) → redis.get time (message_key tenant lock_id own) s ≡ none)
    → length (deliver redis tenant lock_id global_tx_timeout date o is s).0
      ≡ flag (any (is_accepted o) is)
deliver_once redis tenant lock_id own global_tx_timeout date o is s sames exclusive ordered free =
    delivered_once redis tenant lock_id own global_tx_timeout date o is s sames exclusive ordered
      free
