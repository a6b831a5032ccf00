-- ===== src/Statistics.antt =====
-- src/dbHandler.js and src/shared/eventQueueStats.js: the counters of pending and running events in
-- Redis, and the handlers of the event table that adjust them.
pub mod Changes
pub mod Drift
mod Examples
use Prim.Native.String
use event_queue.Prelude.{
  ℕ, ◌+◌, String, Bool, true, false, not, ◌&&◌, ◌||◌, Option, none, some, ◌≡◌, if◌then◌else◌, ◌==◌,
  str_eq,
}
use event_queue.Prelude.Int.{ℤ, pos, ◌+ℤ◌, ◌-ℤ◌}
use event_queue.Constants.{
  status_in_progress, status_done, status_error, status_exceeded, status_suspended,
}
use event_queue.Lock.{redis_namespace}

-- The hashes of Redis with the commands HINCRBY, HGET, HSET and DEL; a field that is missing counts
-- as 0.
pub record Hashes : Type 1 where
  pub Store : Type 0
  pub h_get : (key field : String) → Store → ℤ
  pub h_incr_by : (key field : String) → ℤ → Store → Store
  pub h_set : (key field : String) → ℤ → Store → Store
  pub del : (key : String) → Store → Store
  pub h_get-h_incr_by :
      (key field other other_field : String) (n : ℤ) (s : Store)
      → h_get other other_field (h_incr_by key field n s) ≡ (
          if str_eq key other && str_eq field other_field
          then h_get other other_field s +ℤ n
          else h_get other other_field s)
  pub h_get-h_set :
      (key field other other_field : String) (n : ℤ) (s : Store)
      → h_get other other_field (h_set key field n s)
        ≡ (if str_eq key other && str_eq field other_field then n else h_get other other_field s)
  pub h_get-del :
      (key other field : String) (s : Store)
      → h_get other field (del key s) ≡ (if str_eq key other then pos 0 else h_get other field s)

-- `StatusField`.
abbrev pub pending_field : String
pending_field = "pending"

abbrev pub in_progress_field : String
in_progress_field = "inProgress"

-- `_tenantKey`, `_globalKey` and `_keyPrefix`.
unfoldable pub tenant_key : Option String → String → String
unfolding redis_namespace
tenant_key namespace tenant =
    String.◌++◌ (redis_namespace namespace true) (String.◌++◌ "##stats##tenant##" tenant)

unfoldable pub global_key : Option String → String
unfolding redis_namespace
global_key namespace = String.◌++◌ (redis_namespace namespace true) "##stats##global"

unfoldable pub key_prefix : Option String → String → String
unfolding redis_namespace
key_prefix own namespace = String.◌++◌ (redis_namespace own false) (String.◌++◌ "##" namespace)

-- `req.tx._`, as far as the counters are concerned.
pub record TxStats : Type 0 where
  pub open_count : ℕ
  pub pending_delta : ℤ
  pub in_progress_delta : ℤ
  pub has_create_handler : Bool
  pub has_update_handler : Bool

abbrev pub no_stats : TxStats
no_stats = record {
  open_count = 0;
  pending_delta = pos 0;
  in_progress_delta = pos 0;
  has_create_handler = false;
  has_update_handler = false;
}

-- The handler of CREATE, without the broadcast.
unfoldable pub after_create : (skip_broadcast : Bool) → (entries : ℕ) → TxStats → TxStats
after_create skip_broadcast entries tx =
    if skip_broadcast
    then tx
    else record tx { open_count = tx.open_count + entries; has_create_handler = true }

-- The handler of UPDATE; `none` is an update without a status.
unfoldable pub after_update : (new_status : Option ℕ) → (count : ℕ) → TxStats → TxStats
after_update none count tx = tx
after_update (some status) count tx =
    let tx' = record tx { has_update_handler = true } in
    if status == status_in_progress
    then record tx' {
      pending_delta = tx.pending_delta -ℤ pos count;
      in_progress_delta = tx.in_progress_delta +ℤ pos count;
    }
    else if status == status_error
    then record tx' {
      in_progress_delta = tx.in_progress_delta -ℤ pos count;
      pending_delta = tx.pending_delta +ℤ pos count;
    }
    else if status == status_done || (status == status_exceeded || status == status_suspended)
    then record tx' { in_progress_delta = tx.in_progress_delta -ℤ pos count }
    else tx'

abbrev pub is_zero : ℤ → Bool
is_zero (pos n) = n == 0
is_zero n = false

module _ (hashes : Hashes) (namespace : Option String) where
  open hashes use {Store, h_get, h_incr_by, h_set, del}

  -- `adjustTenantCounter` and `adjustGlobalCounter`.
  unfoldable pub adjust_tenant_counter : (tenant field : String) → ℤ → Store → Store
  adjust_tenant_counter tenant field increment s =
      h_incr_by (tenant_key namespace tenant) field increment s

  unfoldable pub adjust_global_counter : (field : String) → ℤ → Store → Store
  adjust_global_counter field increment s = h_incr_by (global_key namespace) field increment s

  -- `incrementCounters` and `decrementCounters`.
  unfoldable pub increment_counters : (tenant field : String) → ℤ → Store → Store
  unfolding adjust_tenant_counter adjust_global_counter
  increment_counters tenant field increment s =
      adjust_global_counter field increment (adjust_tenant_counter tenant field increment s)

  unfoldable pub decrement_counters : (tenant field : String) → ℤ → Store → Store
  unfolding increment_counters
  decrement_counters tenant field decrement s =
      increment_counters tenant field (pos 0 -ℤ decrement) s

  -- `getTenantStats` and `getGlobalStats`: pending and in progress.
  unfoldable pub get_tenant_stats : (tenant : String) → Store → ℤ × ℤ
  get_tenant_stats tenant s = (
    h_get (tenant_key namespace tenant) pending_field s,
    h_get (tenant_key namespace tenant) in_progress_field s,
  )

  unfoldable pub get_global_stats : Store → ℤ × ℤ
  get_global_stats s = (
    h_get (global_key namespace) pending_field s,
    h_get (global_key namespace) in_progress_field s,
  )

  -- `setTenantCounter` and `setGlobalCounter`.
  unfoldable pub set_tenant_counter : (tenant of_namespace field : String) → ℤ → Store → Store
  unfolding key_prefix
  set_tenant_counter tenant of_namespace field value s =
      h_set
        (String.◌++◌ (key_prefix namespace of_namespace) (String.◌++◌ "##stats##tenant##" tenant))
        field value s

  unfoldable pub set_global_counter : (of_namespace field : String) → ℤ → Store → Store
  unfolding key_prefix
  set_global_counter of_namespace field value s =
      h_set (String.◌++◌ (key_prefix namespace of_namespace) "##stats##global") field value s

  -- `deleteTenantStats`.
  unfoldable pub delete_tenant_stats : (tenant : String) → Store → Store
  delete_tenant_stats tenant s = del (tenant_key namespace tenant) s

  -- The handler of "succeeded" that a CREATE registers.
  unfoldable pub create_succeeded : (metrics : Bool) → (tenant : String) → TxStats → Store → Store
  unfolding increment_counters
  create_succeeded metrics tenant tx s =
      if tx.has_create_handler && (metrics && not (tx.open_count == 0))
      then increment_counters tenant pending_field (pos tx.open_count) s
      else s

  abbrev pub adjust_unless_zero : (tenant field : String) → ℤ → Store → Store
  adjust_unless_zero tenant field delta s =
      if is_zero delta
      then s
      else adjust_global_counter field delta (adjust_tenant_counter tenant field delta s)

  -- The handler of "succeeded" that an UPDATE registers.
  unfoldable pub update_succeeded : (tenant : String) → TxStats → Store → Store
  unfolding adjust_tenant_counter adjust_global_counter
  update_succeeded tenant tx s =
      if tx.has_update_handler
      then adjust_unless_zero tenant in_progress_field tx.in_progress_delta
          (adjust_unless_zero tenant pending_field tx.pending_delta s)
      else s

  -- The end of a transaction that commits; the handler of UPDATE is there with the metrics only.
  unfoldable pub succeeded : (metrics : Bool) → (tenant : String) → TxStats → Store → Store
  unfolding create_succeeded update_succeeded
  succeeded metrics tenant tx s =
      let created = create_succeeded metrics tenant tx s in
      if metrics then update_succeeded tenant tx created else created
