-- ===== src/Outbox/Clusters/Answered.antt =====
-- src/outbox/EventQueueGenericOutboxHandler.js: what the handlers for clustering answer, beside the
-- loops that collect it.
use event_queue.Prelude.{
  ◌≡◌, refl, ap, ◌∙◌, ℕ, ◌+◌, String, Bool, true, false, ◌&&◌, Option, none, some, List, [], ◌∷◌,
  ◌++◌, if◌then◌else◌, str_eq, sum_by, arith, append_assoc, All, Bool-cases, inl, inr, eq_iff,
}
use event_queue.Prelude.Dict.{has, insert}
use event_queue.Outbox.Clusters.{
  Queued, Cluster, ClusterMap, Groups, or_none, Returned, HandlerResult, handler_throws, no_object,
  clusters, valid_cluster, validate_cluster, assign, Answers, all_valid, not_valid, sending_failed,
  assign_valid, after_handler, send_all, Clustering, send_specific_after,
}

-- What the answers of the handlers come to: up to the first one that is not valid.
pub data Verdict : Type 0 where
  every_valid some_invalid some_thrown : Verdict

abbrev pub is_some {ℓ} : {A : Type ℓ} → Option A → Bool
is_some none = false
is_some (some a) = true

-- Each cluster of an answer has its queue entries and a payload.
abbrev pub is_complete : List (String × Returned) → Bool
is_complete [] = true
is_complete ((key, r) ∷ rs) = is_some r.queue_entries && (is_some r.payload && is_complete rs)

abbrev pub verdict_with : HandlerResult → Verdict → Verdict
verdict_with handler_throws v = some_thrown
verdict_with no_object v = some_invalid
verdict_with (clusters rs) v = if is_complete rs then v else some_invalid

abbrev pub then_verdict : Verdict → Verdict → Verdict
then_verdict every_valid v = v
then_verdict some_invalid v = some_invalid
then_verdict some_thrown v = some_thrown

abbrev pub verdict : (String → List Queued → HandlerResult) → Groups → Verdict
verdict send [] = every_valid
verdict send ((action, es) ∷ gs) = verdict_with (send action es) (verdict send gs)

-- The keys of the clusters with a number for each.
abbrev pub Tallies : Type 0
Tallies = List (String × ℕ)

-- Of clusters with the same key the last one counts.
abbrev pub in_last : Tallies → ℕ
in_last [] = 0
in_last ((key, n) ∷ ts) = (if has key ts then 0 else n) + in_last ts

module _ (count : List Queued → ℕ) where
  abbrev pub returned_tallies : List (String × Returned) → Tallies
  returned_tallies [] = []
  returned_tallies ((key, r) ∷ rs) = (key, count (or_none r.queue_entries)) ∷ returned_tallies rs

  -- What the clusters of an answer are counted with, in their order.
  abbrev pub tallies_of : HandlerResult → Tallies
  tallies_of handler_throws = []
  tallies_of no_object = []
  tallies_of (clusters rs) = returned_tallies rs

  abbrev pub answered : (String → List Queued → HandlerResult) → Groups → Tallies
  answered send [] = []
  answered send ((action, es) ∷ gs) = tallies_of (send action es) ++ answered send gs

  abbrev cluster_tallies : ClusterMap → Tallies
  cluster_tallies [] = []
  cluster_tallies ((key, c) ∷ cs) = (key, count c.queue_entries) ∷ cluster_tallies cs

  -- What is left of a map when the clusters with some keys are replaced.
  abbrev pub rest : ClusterMap → Tallies → ℕ
  rest m ts = sum_by (λ e. if has e.0 ts then 0 else count e.1.queue_entries) m

  abbrev HasNot : String → ClusterMap → Type 0
  HasNot key m = All (λ e. str_eq key e.0 ≡ false) m

  abbrev pub Apart : ClusterMap → Type 0
  Apart [] = Unit
  Apart ((key, c) ∷ m) = HasNot key m × Apart m

  insert-HasNot :
      (j key : String) (c : Cluster) (m : ClusterMap)
      → str_eq j key ≡ false
      → HasNot j m
      → HasNot j (insert key c m)
  unfolding insert
  insert-HasNot j key c [] other h = (other, tt)
  insert-HasNot j key c ((k, d) ∷ m) other (first, h) = elim (Bool-cases (str_eq k key)) [
    | inl same ↦ rw same (first, h)
    | inr differs ↦ rw differs (first, insert-HasNot j key c m other h)
  ]

  insert-Apart : (key : String) (c : Cluster) (m : ClusterMap) → Apart m → Apart (insert key c m)
  unfolding insert
  insert-Apart key c [] apart = (tt, tt)
  insert-Apart key c ((k, d) ∷ m) (first, apart) = elim (Bool-cases (str_eq k key)) [
    | inl same ↦ rw same (first, apart)
    | inr differs ↦ rw differs (insert-HasNot k key c m differs first, insert-Apart key c m apart)
  ]

  rest-unused :
      (key : String) (n : ℕ) (m : ClusterMap) (ts : Tallies)
      → HasNot key m
      → rest m ((key, n) ∷ ts) ≡ rest m ts
  unfolding has
  rest-unused key n [] ts h = refl
  rest-unused key n ((k, d) ∷ m) ts (first, h) = rw (first, rest-unused key n m ts h) refl

  rest-insert :
      (key : String) (c : Cluster) (m : ClusterMap) (ts : Tallies) (n : ℕ)
      → Apart m
      → rest (insert key c m) ts
        ≡ rest m ((key, n) ∷ ts) + (if has key ts then 0 else count c.queue_entries)
  unfolding insert has
  rest-insert key c [] ts n apart = omega arith
  rest-insert key c ((k, d) ∷ m) ts n (first, apart) = elim (Bool-cases (str_eq k key)) [
    | inl same ↦
        let eq = (eq_iff k key).0 same in
        let self = (eq_iff key key).1 refl in
        let unused = rest-unused k n m ts first in ground (arith, eq, self, unused)
    | inr differs ↦
        let other : str_eq key k ≡ false = ground (arith, eq_iff k key, eq_iff key k) in
        rw (differs, other) (omega (arith, rest-insert key c m ts n apart))
  ]

  -- The clusters of a map and of answers behind it.
  abbrev pub total : ClusterMap → Tallies → ℕ
  total m ts = rest m ts + in_last ts

  assign-total :
      (cs m : ClusterMap) (ts : Tallies)
      → Apart m
      → Apart (assign m cs) × (total (assign m cs) ts ≡ total m (cluster_tallies cs ++ ts))
  unfolding assign
  assign-total [] m ts apart = (apart, refl)
  assign-total ((key, c) ∷ cs) m ts apart =
      let (apart', same) = assign-total cs (insert key c m) ts (insert-Apart key c m apart) in
      let n = count c.queue_entries in
      (apart', omega (arith, same, rest-insert key c m (cluster_tallies cs ++ ts) n apart))

  abbrev Validated : List (String × Returned) → Option ClusterMap → Type 0
  Validated rs none = is_complete rs ≡ false
  Validated rs (some cs) = (is_complete rs ≡ true) × (cluster_tallies cs ≡ returned_tallies rs)

  valid_cluster-Validated :
      (key : String) (rs : List (String × Returned)) (q : Option (List Queued)) (p : Option String)
      (o : Option ClusterMap)
      → Validated rs o
      → Validated ((key, record { queue_entries = q; payload = p }) ∷ rs) (valid_cluster key q p o)
  valid_cluster-Validated key rs none p o h = refl
  valid_cluster-Validated key rs (some es) none o h = refl
  valid_cluster-Validated key rs (some es) (some p) none h = h
  valid_cluster-Validated key rs (some es) (some p) (some cs) (complete, same) =
      (complete, ap (λ ts. (key, count es) ∷ ts) same)

  validate_cluster-Validated : (rs : List (String × Returned)) → Validated rs (validate_cluster rs)
  unfolding validate_cluster
  validate_cluster-Validated [] = (refl, refl)
  validate_cluster-Validated ((key, r) ∷ rs) =
      valid_cluster-Validated key rs r.queue_entries r.payload _ (validate_cluster-Validated rs)

  -- The outcome of the loops over some answers, from a map on, and their verdict.
  abbrev pub Agrees : ClusterMap → Tallies → Verdict → Answers → Type 0
  Agrees m ts every_valid (all_valid m') =
      Apart m' × ((behind : Tallies) → total m' behind ≡ total m (ts ++ behind))
  Agrees m ts some_invalid not_valid = Unit
  Agrees m ts some_thrown sending_failed = Unit
  Agrees m ts v a = true ≡ false

  Agrees-append :
      (m m1 : ClusterMap) (before ts : Tallies) (v : Verdict) (a : Answers)
      → ((behind : Tallies) → total m1 behind ≡ total m (before ++ behind))
      → Agrees m1 ts v a
      → Agrees m (before ++ ts) v a
  Agrees-append m m1 before ts every_valid (all_valid m') same (apart, h) =
      (apart, λ behind. h behind ∙ same (ts ++ behind) ∙ rw (append_assoc before ts behind) refl)
  Agrees-append m m1 before ts every_valid not_valid same h = h
  Agrees-append m m1 before ts every_valid sending_failed same h = h
  Agrees-append m m1 before ts some_invalid (all_valid m') same h = h
  Agrees-append m m1 before ts some_invalid not_valid same h = h
  Agrees-append m m1 before ts some_invalid sending_failed same h = h
  Agrees-append m m1 before ts some_thrown (all_valid m') same h = h
  Agrees-append m m1 before ts some_thrown not_valid same h = h
  Agrees-append m m1 before ts some_thrown sending_failed same h = h

  module _ (send : String → List Queued → HandlerResult) where
    abbrev SendsAll : Groups → Type 0
    SendsAll gs =
        (m : ClusterMap)
        → Apart m
        → Agrees m (answered send gs) (verdict send gs) (send_all send gs m)

    assign_valid-Agrees :
        (gs : Groups) (rs : List (String × Returned)) (o : Option ClusterMap) (m : ClusterMap)
        → SendsAll gs
        → Validated rs o
        → Apart m
        → Agrees m
            (returned_tallies rs ++ answered send gs)
            (if is_complete rs then verdict send gs else some_invalid)
            (assign_valid send o m (send_all send gs))
    assign_valid-Agrees gs rs none m later h apart = rw h tt
    assign_valid-Agrees gs rs (some cs) m later (complete, same) apart =
        let kept = (assign-total cs m [] apart).0 in
        rw complete (
          Agrees-append m (assign m cs) (returned_tallies rs) (answered send gs) _ _
            (λ behind. (assign-total cs m behind apart).1 ∙ ap (λ ts. total m (ts ++ behind)) same)
            (later (assign m cs) kept))

    after_handler-Agrees :
        (gs : Groups) (r : HandlerResult) (m : ClusterMap)
        → SendsAll gs
        → Apart m
        → Agrees m
            (tallies_of r ++ answered send gs)
            (verdict_with r (verdict send gs))
            (after_handler send r m (send_all send gs))
    after_handler-Agrees gs handler_throws m later apart = tt
    after_handler-Agrees gs no_object m later apart = tt
    after_handler-Agrees gs (clusters rs) m later apart =
        assign_valid-Agrees gs rs (validate_cluster rs) m later (validate_cluster-Validated rs)
          apart

    -- The loop over the actions against its answers.
    pub send_all-Agrees : (gs : Groups) → SendsAll gs
    unfolding send_all
    send_all-Agrees [] m apart = (apart, λ behind. refl)
    send_all-Agrees ((action, es) ∷ gs) m apart =
        after_handler-Agrees gs (send action es) m (send_all-Agrees gs) apart

  -- The specific handlers are asked behind the generic ones.
  pub send_specific_after-Agrees :
      (c : Clustering) (specific : Groups) (m : ClusterMap) (ts : Tallies) (v : Verdict)
      (a : Answers)
      → Agrees m ts v a
      → Agrees m
          (ts ++ answered c.send_specific specific)
          (then_verdict v (verdict c.send_specific specific))
          (send_specific_after c specific a)
  send_specific_after-Agrees c specific m ts every_valid (all_valid m') (apart, h) =
      Agrees-append m m' ts _ _ _ h (send_all-Agrees c.send_specific specific m' apart)
  send_specific_after-Agrees c specific m ts every_valid not_valid h = absurd (ground arith)
  send_specific_after-Agrees c specific m ts every_valid sending_failed h = absurd (ground arith)
  send_specific_after-Agrees c specific m ts some_invalid (all_valid m') h = absurd (ground arith)
  send_specific_after-Agrees c specific m ts some_invalid not_valid h = tt
  send_specific_after-Agrees c specific m ts some_invalid sending_failed h = h
  send_specific_after-Agrees c specific m ts some_thrown (all_valid m') h = absurd (ground arith)
  send_specific_after-Agrees c specific m ts some_thrown not_valid h = h
  send_specific_after-Agrees c specific m ts some_thrown sending_failed h = tt
