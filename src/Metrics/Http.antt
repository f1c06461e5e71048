-- ===== src/Metrics/Http.antt =====
-- `metrics::Server::Loop` of server/src/Metrics.cpp: one connection. The request is read up to the
-- blank line that ends its header, and the answer written as far as the client takes it. What the
-- provider returns and the digits of its size are arguments, since `snprintf` prints them.
pub mod Reading
pub mod Answering
use mo_belt.Prelude.{
  ℕ, ◌-◌, Bool, true, false, ◌&&◌, ◌||◌, if◌then◌else◌, ltb, ◌==◌, List, [], ◌∷◌, ◌++◌, length,
  take, skip,
}

-- `sizeof(req)`.
abbrev pub request_size : ℕ
request_size = 2048

-- The test on four bytes: `\r\n\r\n`.
abbrev pub is_blank_line : ℕ → ℕ → ℕ → ℕ → Bool
is_blank_line a b c d = (a == 13 && b == 10) && (c == 13 && d == 10)

-- The loop that looks for it in what has come.
unfoldable pub has_end : List ℕ → Bool
has_end (a ∷ b ∷ c ∷ d ∷ rest) = is_blank_line a b c d || has_end (b ∷ c ∷ d ∷ rest)
has_end (a ∷ b ∷ c ∷ []) = false
has_end (a ∷ b ∷ []) = false
has_end (a ∷ []) = false
has_end [] = false

-- The reading loop, by what `read` would hand over in each round if there were room for it. Nothing
-- stands for the end of the stream, an error and the time-out; so does the end of the list.
unfoldable pub read_request : List (List ℕ) → List ℕ → List ℕ
unfolding has_end
read_request [] got = got
read_request ([] ∷ chunks) got = got
read_request ((x ∷ l) ∷ chunks) got =
    let all = got ++ take (request_size - length got) (x ∷ l) in
    let more = read_request chunks all in
    if ltb (length got) request_size then if has_end all then all else more else got

-- The writing loop, by how much `write` would take in each round; 0 stands for an error too. The result
-- is what the client gets.
unfoldable pub write_response : List ℕ → List ℕ → List ℕ
write_response answers [] = []
write_response [] (x ∷ l) = []
write_response (n ∷ answers) (x ∷ l) =
    let more = write_response answers (skip n (x ∷ l)) in
    if n == 0 then [] else take n (x ∷ l) ++ more
