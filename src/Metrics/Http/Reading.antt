-- ===== src/Metrics/Http/Reading.antt =====
-- The loop of `metrics::Server::Loop` (server/src/Metrics.cpp) that reads the request.
use mo_belt.Prelude.{ℕ, List, [], ◌∷◌, ◌++◌, ◌≢◌}

abbrev pub join_all : List (List ℕ) → List ℕ
join_all [] = []
join_all (c ∷ chunks) = c ++ join_all chunks

-- Every `read` hands over something.
abbrev pub AllSome : List (List ℕ) → Type 0
AllSome [] = Unit
AllSome (c ∷ chunks) = (c ≢ []) × AllSome chunks
