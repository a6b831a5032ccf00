-- ===== src/Common/Examples.antt =====
-- src/shared/common.js: small runs.
use event_queue.Prelude.{◌≡◌, ℕ, ◌≤◌, some, List, [], ◌∷◌, length, All, arith}
use event_queue.Common.{Started, limiter, process_chunked_sync, still_running}
use event_queue.Common.Limit.{Settles, limiter_bound}
use event_queue.Common.Chunks.{concat, IsChunk, process_chunked_sync-concat}

-- Two at the same time; the first one settles while the second one runs.
abbrev starts : List Started
starts =
    record { payload = 1; settled = [] }
    ∷ record { payload = 2; settled = 1 ∷ [] }
    ∷ record { payload = 3; settled = 2 ∷ 3 ∷ [] }
    ∷ []

limiter_bound_example : All (λ now. length now ≤ 2) (limiter 2 3 starts [])
unfolding Settles still_running
limiter_bound_example =
    limiter_bound 2 starts (omega arith)
      ((λ waiting. ground arith), ((λ waiting. ground arith), ((λ waiting. ground arith), tt)))

process_chunked_sync-concat_example :
    (cs : List (List ℕ)) × (process_chunked_sync 2 (1 ∷ 2 ∷ 3 ∷ []) ≡ some cs)
    × (concat cs ≡ 1 ∷ 2 ∷ 3 ∷ [])
    × All (IsChunk 2) cs
process_chunked_sync-concat_example = process_chunked_sync-concat 2 (1 ∷ 2 ∷ 3 ∷ []) (omega arith)
