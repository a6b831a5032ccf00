-- ===== src/Processor/Status/Aggregate.antt =====
-- src/EventQueueProcessorBase.js: the status that an event ends up with when several are reported.
use event_queue.Prelude.{
  ℕ, zero, suc, ◌<◌, ◌≡◌, refl, ap, ◌∙◌, String, true, Option, none, some, List, [], ◌∷◌,
  if◌then◌else◌, leb, arith, inl, inr, Bool-cases, eq_iff, str_eq,
}
use event_queue.Prelude.Dict.{lookup, insert, lookup-insert}
use event_queue.Constants.{is_failure}
use event_queue.Processor.Status.{
  Reported, number, update, undefined, StatusMap, done, with_status, determine_and_add, add_status,
  merged, at_least, fails,
}

-- The entries of one id, one report after the other.
unfoldable pub report : String → List ℕ → StatusMap → StatusMap
report id [] m = m
report id (s ∷ ss) m = report id ss (add_status id s none m)

-- The smallest of a number and those of a list.
unfoldable pub minimum : ℕ → List ℕ → ℕ
minimum s [] = s
minimum s (r ∷ rs) = minimum (if leb r s then r else s) rs

-- The entry that a status number gives, next to what is there.
abbrev pub entry_for : Option Reported → ℕ → Reported
entry_for none s = update (with_status s)
entry_for (some (update u)) s =
    if fails u.status
    then update u
    else if at_least u.status (some s)
    then update (with_status s)
    else update u
entry_for (some (number zero)) s = update (with_status s)
entry_for (some (number (suc n))) s = number (suc n)
entry_for (some undefined) s = update (with_status s)

merged-number :
    (o : Option Reported) (s : ℕ) → merged o (update (with_status s)) ≡ done (entry_for o s)
merged-number none s = refl
merged-number (some (number zero)) s = refl
merged-number (some (number (suc n))) s = refl
merged-number (some (update u)) s = ground arith
merged-number (some undefined) s = refl

pub add_status-insert :
    (id : String) (s : ℕ) (m : StatusMap)
    → add_status id s none m ≡ insert id (entry_for (lookup id m) s) m
unfolding add_status
add_status-insert id s m = rw (merged-number (lookup id m) s, add_status, determine_and_add)

str_eq_self : (s : String) → str_eq s s ≡ true
str_eq_self s = (eq_iff s s).1 refl

pub lookup-add_status :
    (id j : String) (s : ℕ) (m : StatusMap)
    → lookup j (add_status id s none m)
      ≡ (if str_eq id j then some (entry_for (lookup id m) s) else lookup j m)
lookup-add_status id j s m = rw (add_status-insert id s m) (lookup-insert id j _ m)

lookup-add_status_self :
    (id : String) (s : ℕ) (m : StatusMap)
    → lookup id (add_status id s none m) ≡ some (entry_for (lookup id m) s)
lookup-add_status_self id s m = rw (lookup-add_status id id s m) (rw (str_eq_self id))

report_again :
    (id : String) (s : ℕ) (ss : List ℕ) (m : StatusMap)
    → s < 5
    → lookup id m ≡ some (update (with_status s))
    → lookup id (report id ss m)
      ≡ some (update (with_status (if is_failure s then s else minimum s ss)))
unfolding report minimum
report_again id s [] m small h = ground arith
report_again id s (r ∷ rs) m small h =
    let next : lookup id (add_status id r none m)
        ≡ some (entry_for (some (update (with_status s))) r) =
      lookup-add_status_self id r m ∙ ap (λ o. some (entry_for o r)) h in
    elim (Bool-cases (is_failure s)) [
      | inl bad ↦ ground (arith, next, report_again id s rs (add_status id r none m))
      | inr fine ↦ elim (Bool-cases (leb r s)) [
        | inl lower ↦ ground (arith, next, report_again id r rs (add_status id r none m))
        | inr higher ↦ ground (arith, next, report_again id s rs (add_status id r none m))
      ]
    ]

-- Several statuses reported for one id give the first one, if that is Error or Exceeded, and
-- otherwise the smallest. So an Error reported after Done is lost.
pub report-eq :
    (id : String) (s : ℕ) (ss : List ℕ) (m : StatusMap)
    → s < 5
    → lookup id m ≡ none
    → lookup id (report id (s ∷ ss) m)
      ≡ some (update (with_status (if is_failure s then s else minimum s ss)))
unfolding report
report-eq id s ss m small fresh =
    report_again id s ss (add_status id s none m) small
      (lookup-add_status_self id s m ∙ ap (λ o. some (entry_for o s)) fresh)
