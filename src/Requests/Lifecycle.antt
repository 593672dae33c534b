-- ===== src/Requests/Lifecycle.antt =====
-- What apps/gateway/src/lib/execution.ts makes of a request that is started and finalized.
use Prim.Native.String.{String}
use modelforge_ai.Base.{
  ℕ, ◌≡◌, refl, ◌∙◌, inl, inr, Bool, true, false, none, some, List, [], ◌∷◌, map, arith,
  if◌then◌else◌, Bool-cases, Option-cases,
}
use modelforge_ai.Base.Text.{◌==◌, text_eq, nat_eq, beq_refl}
use modelforge_ai.Base.Preds.{any, find}
use modelforge_ai.Base.Result.{ok}
use modelforge_ai.Requests.Execution.{
  InferenceRequest, InferenceAttempt, Store, is_request, is_attempt, update_request, update_attempt,
  create_attempt, AttemptInput, new_attempt, start_attempt, FinalizeInferenceRequestFields,
  finalized_request, finalized_attempt, finalize_inference_request,
}
use modelforge_ai.Requests.Final.{
  started, IsFinalRequest, IsFinalAttempt, finalized_request-IsFinalRequest,
  finalized_attempt-IsFinalAttempt,
}

module _ {ℓ} {A : Type ℓ} (p : A → Bool) (f : A → A) where
  -- The write of an update: the rows that match are replaced.
  abbrev pub rewrite_rows : List A → List A
  rewrite_rows xs = map (λ x. if p x then f x else x) xs

  any_found : (xs : List A) → any p xs ≡ true → (x : A) × (find p xs ≡ some x)
  any_found [] h = cc
  any_found (x ∷ xs) h = elim (Bool-cases (p x)) [
    | inl hit ↦ (x, rw hit refl)
    | inr miss ↦ let (y, found) = any_found xs (ground (arith, h, miss)) in (y, rw miss found)
  ]

  find_rewritten :
      ((x : A) → p (f x) ≡ p x)
      → (xs : List A) (x : A) → find p xs ≡ some x
      → find p (rewrite_rows xs) ≡ some (f x)
  find_rewritten kept [] x h = cc
  find_rewritten kept (y ∷ ys) x h = ground (arith, h, kept y, find_rewritten kept ys x)

  any_rewritten : ((x : A) → p (f x) ≡ p x) → (xs : List A) → any p (rewrite_rows xs) ≡ any p xs
  any_rewritten kept [] = refl
  any_rewritten kept (y ∷ ys) = ground (arith, kept y, any_rewritten kept ys)

  -- The rows that another test picks do not change, when the write does not make it pass or fail.
  find_others :
      (q : A → Bool)
      → ((x : A) → p x ≡ true → (q x ≡ false) × (q (f x) ≡ false))
      → (xs : List A) → find q (rewrite_rows xs) ≡ find q xs
  find_others q apart [] = refl
  find_others q apart (y ∷ ys) = ground (arith, apart y, find_others q apart ys)

-- What a started and finalized request has in the store.
pub record IsFinalized (id : String) (input : AttemptInput) (f : FinalizeInferenceRequestFields)
    (now later : ℕ) (before after : Store) : Type 0 where
  pub old : InferenceRequest
  pub old_found : find (is_request id) before.requests ≡ some old
  pub request : InferenceRequest
  pub request_found : find (is_request id) after.requests ≡ some request
  pub request_final : IsFinalRequest f now later old request
  pub attempt : InferenceAttempt
  pub attempt_found : find (is_attempt id input.attempt_no) after.attempts ≡ some attempt
  pub attempt_final : IsFinalAttempt id input f now later attempt

start_attempt-ok :
    (id : String) (input : AttemptInput) (now : ℕ) (s s' : Store)
    → start_attempt id input now s ≡ ok s'
    → (any (is_request id) s.requests ≡ true)
      × (s' ≡ record {
        requests = rewrite_rows (is_request id) (started now) s.requests;
        attempts = new_attempt id input now ∷ s.attempts;
      })
unfolding start_attempt update_request create_attempt new_attempt
start_attempt-ok id input now s s' h = elim (Bool-cases (any (is_request id) s.requests)) [
  | inr missing ↦ absurd (ground (arith, h, missing))
  | inl present ↦ elim (Bool-cases (any (is_attempt id input.attempt_no) s.attempts)) [
    | inl taken ↦ absurd (ground (arith, h, present, taken))
    | inr free ↦ (present, ground (arith, h, present, free))
  ]
]

-- An attempt that has been started can be finalized, whatever its fields and the store: the call does not
-- throw; request and attempt then have the status that is given, the times of the two calls, the code and
-- the message of the error that is given, or none, and every figure that is given, all others being those
-- of before; and the request keeps its customer, key and requested model, the attempt its number, backend,
-- model and node.
pub finalize_inference_request-started :
    (id : String) (input : AttemptInput) (f : FinalizeInferenceRequestFields) (now later : ℕ)
    (s s' : Store)
    → start_attempt id input now s ≡ ok s'
    → f.attempt_no ≡ some input.attempt_no
    → (after : Store) × (finalize_inference_request id f later s' ≡ (none, after))
      × IsFinalized id input f now later s after
unfolding finalize_inference_request update_request update_attempt new_attempt finalized_request
    finalized_attempt
finalize_inference_request-started id input f now later s s' h numbered =
    let (present, shape) = start_attempt-ok id input now s s' h in
    let (request, found) = any_found (is_request id) (started now) s.requests present in
    let again = any_rewritten (is_request id) (started now) (λ r. refl) s.requests ∙ present in
    let once = find_rewritten (is_request id) (started now) (λ r. refl) s.requests request found in
    let twice =
      find_rewritten (is_request id) (finalized_request f later) (λ r. refl)
        (rewrite_rows (is_request id) (started now) s.requests) (started now request) once in
    (
      record {
        requests =
            rewrite_rows (is_request id) (finalized_request f later)
              (rewrite_rows (is_request id) (started now) s.requests);
        attempts =
            rewrite_rows (is_attempt id input.attempt_no) (finalized_attempt f later)
              (new_attempt id input now ∷ s.attempts);
      },
      rw (shape, numbered) (ground (arith, again, beq_refl id, beq_refl input.attempt_no)),
      record {
        old = request;
        old_found = found;
        request = finalized_request f later (started now request);
        request_found = twice;
        request_final = finalized_request-IsFinalRequest f now later request;
        attempt = finalized_attempt f later (new_attempt id input now);
        attempt_found = ground (arith, beq_refl id, beq_refl input.attempt_no);
        attempt_final = finalized_attempt-IsFinalAttempt id input f now later;
      },
    )

apart_id :
    (id other : String) (f : InferenceRequest → InferenceRequest)
    → (other == id) ≡ false
    → ((r : InferenceRequest) → (f r).id ≡ r.id)
    → (r : InferenceRequest) → is_request id r ≡ true
    → (is_request other r ≡ false) × (is_request other (f r) ≡ false)
apart_id id other f different kept r h =
    ground
      (arith, text_eq.beq_iff r.id id, text_eq.beq_iff r.id other, text_eq.beq_iff other id, kept r)

-- Finalizing a request, whether it throws or not, changes no other request.
pub finalize_inference_request-others :
    (id other : String) (f : FinalizeInferenceRequestFields) (now : ℕ) (s : Store)
    → (other == id) ≡ false
    → find (is_request other) (finalize_inference_request id f now s).1.requests
      ≡ find (is_request other) s.requests
unfolding finalize_inference_request update_request update_attempt finalized_request
finalize_inference_request-others id other f now s different =
    let same =
      find_others (is_request id) (finalized_request f now) (is_request other)
        (apart_id id other (finalized_request f now) different (λ r. refl)) s.requests in
    elim (Bool-cases (any (is_request id) s.requests)) [
      | inr missing ↦ rw (finalize_inference_request, update_request, missing) refl
      | inl present ↦ elim (Option-cases f.attempt_no) [
        | inl unnumbered ↦ rw (finalize_inference_request, update_request, present, unnumbered) same
        | inr (number, numbered) ↦ elim (Bool-cases (any (is_attempt id number) s.attempts)) [
          | inl attempted ↦
              rw
                (
                  finalize_inference_request, update_request, present, numbered, update_attempt,
                  attempted,
                )
                same
          | inr unknown ↦
              rw
                (
                  finalize_inference_request, update_request, present, numbered, update_attempt,
                  unknown,
                )
                same
        ]
      ]
    ]
