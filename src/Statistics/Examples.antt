-- ===== src/Statistics/Examples.antt =====
-- src/dbHandler.js: a transaction on counters in memory.
use event_queue.Prelude.{refl, String, true, false, List, [], ◌∷◌, ◌&&◌, if◌then◌else◌, str_eq}
use event_queue.Prelude.Int.{ℤ, pos, ◌+ℤ◌}
use event_queue.Statistics.{Hashes}
use event_queue.Statistics.Changes.{
  Change, Rows, waiting, running, inserted, taken, failed, finished, opened, deleted,
}

abbrev memory_hashes : Hashes
memory_hashes = record {
  Store = String → String → ℤ;
  h_get = λ key field s. s key field;
  h_incr_by = λ key field n s other other_field.
      if str_eq key other && str_eq field other_field
      then s other other_field +ℤ n
      else s other other_field;
  h_set = λ key field n s other other_field.
      if str_eq key other && str_eq field other_field then n else s other other_field;
  del = λ key s other field. if str_eq key other then pos 0 else s other field;
  h_get-h_incr_by = λ key field other other_field n s. refl;
  h_get-h_set = λ key field other other_field n s. refl;
  h_get-del = λ key other field s. refl;
}

-- Three events are inserted, and a periodic one with the flag; two are taken, one is done, one is
-- written as Open again, a pending one fails, and another one is deleted.
abbrev changes : List Change
changes =
    inserted false 3
    ∷ inserted true 1
    ∷ taken waiting 2
    ∷ finished running 2 1
    ∷ opened running 1
    ∷ failed waiting 1
    ∷ deleted waiting 1
    ∷ []

abbrev no_rows : Rows
no_rows = record { pending = 0; in_progress = 0 }
