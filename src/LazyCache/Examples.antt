-- ===== src/LazyCache/Examples.antt =====
-- Runs of the cache on concrete keys.
use event_queue.Prelude.{◌≡◌, refl, ℕ, false, some, List, [], ◌∷◌}
use event_queue.Prelude.Dict.{has}
use event_queue.LazyCache.{Data, promise, async, sync, Op, call, reject, get_set_cb, run}
use event_queue.LazyCache.Flight.{single_flight}

abbrev empty : Data ℕ
empty = []

abbrev others : List (Op ℕ)
others = call "t1" (async 8) 5 ∷ call "t2" (sync 90_000 3) 6 ∷ reject "t2" ∷ []

single_flight_example :
    get_set_cb 60_000 "t1"
      (async 9)
      20
      (run 60_000 others (get_set_cb 60_000 "t1" (async 7) 0 empty).after)
    ≡ record {
      result = some (promise 7);
      called_back = false;
      after = run 60_000 others (get_set_cb 60_000 "t1" (async 7) 0 empty).after;
    }
unfolding get_set_cb has
single_flight_example =
    single_flight 60_000 "t1" 7 0 empty others refl (refl, (refl, (refl, tt))) (async 9) 20
