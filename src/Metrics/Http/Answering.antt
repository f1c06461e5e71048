-- ===== src/Metrics/Http/Answering.antt =====
-- The loop of `metrics::Server::Loop` (server/src/Metrics.cpp) that writes the answer.
use mo_belt.Prelude.{
  ℕ, zero, suc, ◌≤◌, ◌≡◌, ◌≢◌, ◌∙◌, refl, ap, arith, if_cases, ◌==◌, List, [], ◌∷◌, ◌++◌,
  append_assoc, length, take, skip, take-skip,
}
use mo_belt.Metrics.Http.{write_response}

-- Every `write` takes something.
abbrev pub AllTake : List ℕ → Type 0
AllTake [] = Unit
AllTake (n ∷ answers) = (n ≢ 0) × AllTake answers

length-skip_one : (n : ℕ) (x : ℕ) (l : List ℕ) → n ≢ 0 → length (skip n (x ∷ l)) ≤ length l
length-skip_one zero x l ne = absurd (ne refl)
length-skip_one (suc n) x l ne = shorter n l
  where
    shorter : (n : ℕ) (l : List ℕ) → length (skip n l) ≤ length l
    shorter zero l = omega arith
    shorter (suc n) [] = omega arith
    shorter (suc n) (y ∷ l) = omega (arith, shorter n l)

-- Whatever the kernel answers, what the client gets is the start of the answer and nothing else.
start_lem : (answers resp : List ℕ) → (rest : List ℕ) × (write_response answers resp ++ rest ≡ resp)
unfolding write_response
start_lem answers [] = ([], refl)
start_lem [] (x ∷ l) = (x ∷ l, refl)
start_lem (n ∷ answers) (x ∷ l) =
    let (rest, e) = start_lem answers (skip n (x ∷ l)) in
    if_cases (λ m. (rest : List ℕ) × (m ++ rest ≡ x ∷ l)) (n == 0) [] _ (λ z. (x ∷ l, refl))
      (λ z. (
        rest,
        append_assoc (take n (x ∷ l)) (write_response answers (skip n (x ∷ l))) rest
            ∙ ap (λ m. take n (x ∷ l) ++ m) e
            ∙ take-skip n (x ∷ l),
      ))

-- Where every `write` takes something, as many of them as the answer has bytes are enough for all of it.
pub write_response-all :
    (answers resp : List ℕ)
    → AllTake answers
    → length resp ≤ length answers
    → write_response answers resp ≡ resp
unfolding write_response
write_response-all answers [] takes le = refl
write_response-all [] (x ∷ l) takes le = absurd omega (arith, le)
write_response-all (n ∷ answers) (x ∷ l) takes le =
    if_cases (λ m. m ≡ x ∷ l) (n == 0) [] _ (λ z. absurd (takes.0 (ground (arith, z))))
      (λ z.
        ap (λ m. take n (x ∷ l) ++ m)
          (write_response-all answers (skip n (x ∷ l)) takes.1
            (omega (arith, le, length-skip_one n x l takes.0)))
        ∙ take-skip n (x ∷ l))
