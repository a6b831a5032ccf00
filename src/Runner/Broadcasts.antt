-- ===== src/Runner/Broadcasts.antt =====
-- src/runner/runner.js: the broadcasts of a run for all tenants.
use event_queue.Prelude.{
  ◌≡◌, refl, sym, ap, ◌∙◌, String, Bool, true, false, not, ◌&&◌, Option, none, some, List, [], ◌∷◌,
  ◌++◌, append-nil, append_assoc, if◌then◌else◌, arith,
}
use event_queue.OpenEvents.{OpenEntry}
use event_queue.Runner.{
  LockAnswer, is_refused, Tenant, Settings, RedisRun, no_run, broadcast_unless_empty, publish_open,
  publish_found, publish_tenants, execute_events_all_tenants_redis,
}

publish_tenants-append :
    (c : Settings) (before after : List Tenant) (r : RedisRun)
    → publish_tenants c (before ++ after) r ≡ publish_tenants c after (publish_tenants c before r)
unfolding publish_tenants
publish_tenants-append c [] after r = refl
publish_tenants-append c (t ∷ before) after r = publish_tenants-append c before after _

found_grows :
    (c : Settings) (id : String) (found : Option (List OpenEntry)) (r : RedisRun)
    → (ys : List (String × List OpenEntry)) × ((publish_found c id found r).broadcasts
        ≡ r.broadcasts ++ ys)
found_grows c id none r = ([], sym (append-nil r.broadcasts))
found_grows c id (some os) r = (broadcast_unless_empty id os, refl)

round_grows :
    (c : Settings) (t : Tenant) (fails : Bool) (r : RedisRun)
    → (ys : List (String × List OpenEntry)) × ((if fails
          then r
          else publish_found c t.id t.entries r).broadcasts
        ≡ r.broadcasts ++ ys)
round_grows c t true r = ([], sym (append-nil r.broadcasts))
round_grows c t false r = found_grows c t.id t.entries r

-- The broadcasts only grow.
publish_tenants_grow :
    (c : Settings) (ts : List Tenant) (r : RedisRun)
    → (ys : List (String × List OpenEntry)) × ((publish_tenants c ts r).broadcasts
        ≡ r.broadcasts ++ ys)
unfolding publish_tenants
publish_tenants_grow c [] r = ([], sym (append-nil r.broadcasts))
publish_tenants_grow c (t ∷ ts) r =
    let r' = if t.auth_fails then r else publish_found c t.id t.entries r in
    let (xs, first) = round_grows c t t.auth_fails r in
    let (ys, rest) = publish_tenants_grow c ts r' in
    (xs ++ ys, rest ∙ ap (λ zs. zs ++ ys) first ∙ append_assoc r.broadcasts xs ys)

round_found :
    (c : Settings) (t : Tenant) (os : List OpenEntry) (r : RedisRun)
    → t.auth_fails ≡ false
    → t.entries ≡ some os
    → (if t.auth_fails then r else publish_found c t.id t.entries r) ≡ publish_open c t.id os r
round_found c t os r made found =
    ap (λ b. if b then r else publish_found c t.id t.entries r) made
    ∙ ap (λ e. publish_found c t.id e r) found

publish_tenants_found :
    (c : Settings) (before after : List Tenant) (t : Tenant) (os : List OpenEntry) (r : RedisRun)
    → t.auth_fails ≡ false
    → t.entries ≡ some os
    → publish_tenants c (before ++ t ∷ after) r
      ≡ publish_tenants c after (publish_open c t.id os (publish_tenants c before r))
unfolding publish_tenants
publish_tenants_found c before after t os r made found =
    publish_tenants-append c before (t ∷ after) r
    ∙ ap (publish_tenants c after) (round_found c t os (publish_tenants c before r) made found)

goes_on :
    (has_filter : Bool) (lock : LockAnswer)
    → is_refused lock ≡ false
    → (not has_filter && is_refused lock) ≡ false
goes_on has_filter lock free = ground (arith, free)

-- Unless another instance holds the lock of the run, a tenant with open events gets its broadcast,
-- whichever other tenants fail, and also where the lock cannot be asked for.
pub execute_events_all_tenants_redis-broadcasts :
    (c : Settings) (lock : LockAnswer) (before after : List Tenant) (t : Tenant) (o : OpenEntry)
    (os : List OpenEntry)
    → is_refused lock ≡ false
    → t.auth_fails ≡ false
    → t.entries ≡ some (o ∷ os)
    → (xs ys : List (String × List OpenEntry)) × ((execute_events_all_tenants_redis c lock
          (before ++ t ∷ after)).broadcasts
        ≡ xs ++ (t.id, o ∷ os) ∷ ys)
unfolding execute_events_all_tenants_redis
execute_events_all_tenants_redis-broadcasts c lock before after t o os free made found =
    let r = publish_tenants c before no_run in
    let (ys, grown) = publish_tenants_grow c after (publish_open c t.id (o ∷ os) r) in
    (
      r.broadcasts,
      ys,
      rw (goes_on c.has_tenant_filter lock free) (
          ap (λ s. s.broadcasts) (publish_tenants_found c before after t (o ∷ os) no_run made found)
          ∙ grown
          ∙ append_assoc r.broadcasts ((t.id, o ∷ os) ∷ []) ys),
    )
