-- ===== src/Matching/Executor/Posted.antt =====
-- What a tick that submits through the client has done when it ends.
use markets_service.Base.{
  ◌≤◌, ◌<◌, ◌⊎◌, ◌>>=◌, ◌>>◌, fail_if, not, Bool, true, false, ◌||◌, Bool-cases, inl, inr, Option,
  none, some, Result, ok, err, ◌≡◌, refl, ap, >>=-elim, fail_if-elim, ok_inj, arith, ltb, leb,
}
use markets_service.Matching.Engine.{
  Outcome, executed, tick_instrument, take_up, World, Submission, check_candidate, wrap_error,
  attempt, resume, after_executor, give_up, conclude, try_finalize, reconciled, reconcile_failed,
  should_finalize_after_executor_error,
}
use markets_service.Matching.Engine.Checked.{Checked, check_candidate-Checked}
use markets_service.Matching.Executor.{
  ExecutorError, decode_failed, rejected, url_required, not_sent, ExecutorRequest,
  build_executor_request,
}
use markets_service.Matching.Executor.Request.{IsRequest, build_executor_request-IsRequest}
use markets_service.Matching.Executor.Submit.{
  Client, HttpResponse, ExecutorResponse, wrap_text, read_response, submit_match_for_market,
  answer_of, submitting,
}
use markets_service.Orders.{MatchCandidate, Store, Numeric, RepoError}
use markets_service.Orders.Matches.{acquire_match_candidate}
use markets_service.Text.{Text, is_empty, trim_space}

-- The body of the answer is blank, or it decodes to a response without an error.
abbrev pub NoError : Client → HttpResponse → Type 0
NoError cl resp =
    (is_empty (trim_space resp.body) ≡ true)
    ⊎ ((response : ExecutorResponse) × (cl.unmarshal resp.body ≡ ok response)
        × (is_empty response.error ≡ true))

-- The executor took a request for this match: it was sent, the answer's status is a success, and the
-- answer carries no error.
pub record IsPosted (cl : Client) (c : MatchCandidate) (price amount : Text) : Type 0 where
  pub request : ExecutorRequest
  pub answer : HttpResponse
  pub is_request : IsRequest c price amount request
  pub posted : cl.post request ≡ ok answer
  pub success : (200 ≤ answer.status_code) × (answer.status_code < 300)
  pub no_error : NoError cl answer

wrap_text_ok :
    {A : Type 0} (wrap : Text → ExecutorError) (r : Result Text A) {a : A}
    → wrap_text wrap r ≡ ok a
    → r ≡ ok a
unfolding wrap_text
wrap_text_ok wrap (ok b) h = ap ok (ok_inj h)
wrap_text_ok wrap (err e) h = cc

read_response_success :
    (cl : Client) (resp : HttpResponse) {r : ExecutorResponse}
    → read_response cl resp ≡ ok r
    → (200 ≤ resp.status_code) × (resp.status_code < 300)
unfolding read_response
read_response_success cl resp h =
    fail_if-elim (ltb resp.status_code 200 || leb 300 resp.status_code) _ _ h λ t k. ground arith

decoded-NoError :
    (cl : Client) (resp : HttpResponse) {r : ExecutorResponse}
    (k : ExecutorResponse → Result ExecutorError ExecutorResponse)
    → (wrap_text decode_failed (cl.unmarshal resp.body) >>= (λ response.
        fail_if (not (is_empty response.error)) (rejected response.error) >> k response))
      ≡ ok r
    → NoError cl resp
decoded-NoError cl resp k h =
    >>=-elim (wrap_text decode_failed (cl.unmarshal resp.body)) _ h λ response e h₁.
      fail_if-elim (not (is_empty response.error)) (rejected response.error) _ h₁ λ none_said h₂.
        inr (response, wrap_text_ok decode_failed (cl.unmarshal resp.body) e, ground arith)

read_response-NoError :
    (cl : Client) (resp : HttpResponse) {r : ExecutorResponse}
    → read_response cl resp ≡ ok r
    → NoError cl resp
unfolding read_response
read_response-NoError cl resp h =
    fail_if-elim (ltb resp.status_code 200 || leb 300 resp.status_code) _ _ h λ t k.
      elim (Bool-cases (is_empty (trim_space resp.body))) [
        | inl blank ↦ inl blank
        | inr said ↦ decoded-NoError cl resp _ (rw said at k)
      ]

submit_match_for_market-IsPosted :
    (cl : Client) (market : Text) (c : MatchCandidate) (price amount : Text) {r : ExecutorResponse}
    → submit_match_for_market cl market c price amount ≡ ok r
    → IsPosted cl c price amount
unfolding submit_match_for_market
submit_match_for_market-IsPosted cl market c price amount h =
    fail_if-elim (is_empty cl.url) url_required _ h λ t h₁.
      >>=-elim (build_executor_request cl.float market c cl.manager_data price amount) _ h₁
        λ req built h₂. >>=-elim (wrap_text not_sent (cl.post req)) _ h₂ λ resp sent h₃. record {
          request = req;
          answer = resp;
          is_request =
              build_executor_request-IsRequest cl.float market c cl.manager_data price amount built;
          posted = wrap_text_ok not_sent (cl.post req) sent;
          success = read_response_success cl resp h₃;
          no_error = read_response-NoError cl resp h₃;
        }

-- A check that fails is no execution.
abbrev is_executed : Outcome → Bool
is_executed executed = true
is_executed _ = false

check_candidate_err :
    (w : World) (c : MatchCandidate) {o : Outcome}
    → check_candidate w c ≡ err o
    → is_executed o ≡ false
unfolding check_candidate wrap_error
check_candidate_err w c h = ground arith

conclude_executed :
    (w : World) (c : MatchCandidate) (done failed : Outcome) (r : Option Store) (s : Store)
    → is_executed failed ≡ false
    → is_executed (conclude w c done failed r s).0 ≡ true
    → is_executed done ≡ true
unfolding conclude
conclude_executed w c done failed none s f h = cc
conclude_executed w c done failed (some t) s f h = h

give_up_outcome :
    (w : World) (c : MatchCandidate) (o : Outcome) (s : Store) → (give_up w c o s).0 ≡ o
unfolding give_up
give_up_outcome w c o s = ground arith

after_executor_executed :
    (w : World) (c : MatchCandidate) (m : Submission) (r : Result Text (Unit {0})) (s : Store)
    → is_executed (after_executor w c m r s).0 ≡ true
    → (u : Unit {0}) × (r ≡ ok u)
unfolding after_executor
after_executor_executed w c m (ok u) s h = (u, refl)
after_executor_executed w c m (err e) s h =
    elim (Bool-cases (should_finalize_after_executor_error e)) [
      | inl b ↦ absurd (
          ground (
            arith,
            conclude_executed w c reconciled reconcile_failed (try_finalize w c m s) s refl,
          ))
      | inr b ↦ absurd (ground arith)
    ]

answer_of_ok :
    (cl : Client) (r : Result ExecutorError ExecutorResponse)
    → (u : Unit {0}) × (answer_of cl r ≡ ok u)
    → (response : ExecutorResponse) × (r ≡ ok response)
unfolding answer_of
answer_of_ok cl (ok response) h = (response, refl)
answer_of_ok cl (err e) (u, h) = cc

-- The match that a tick acquired was checked and posted.
pub record IsExecuted (num : Numeric) (cl : Client) (market : Text) (w : World) (asset sub : Text)
    (s : Store) : Type 0 where
  pub candidate : MatchCandidate
  pub reserved : Store
  pub submission : Submission
  pub acquired : acquire_match_candidate num asset sub w.now s ≡ ok (some candidate, reserved)
  pub checked : Checked (submitting cl market w) candidate submission
  pub posted : IsPosted cl candidate (submission.units).fill_price (submission.units).fill_amount

module _ (num : Numeric) (cl : Client) (market : Text) (w : World) (asset sub : Text)
    (s₀ : Store) where
  attempt-IsExecuted :
      (c : MatchCandidate) (s : Store) (r : Result Outcome Submission)
      → acquire_match_candidate num asset sub w.now s₀ ≡ ok (some c, s)
      → check_candidate (submitting cl market w) c ≡ r
      → is_executed (resume (submitting cl market w) c s r).0 ≡ true
      → IsExecuted num cl market w asset sub s₀
  unfolding resume
  attempt-IsExecuted c s (err o) q e h =
      let failed = check_candidate_err (submitting cl market w) c e in
      let same = give_up_outcome (submitting cl market w) c o s in absurd (cc)
  attempt-IsExecuted c s (ok m) q e h =
      let u = m.units in
      let answered =
        after_executor_executed (submitting cl market w) c m _
          ((submitting cl market w).meanwhile s) h in
      let (response, submitted) =
        answer_of_ok cl (submit_match_for_market cl market c u.fill_price u.fill_amount)
          (unfold submitting in answered) in
      record {
        candidate = c;
        reserved = s;
        submission = m;
        acquired = q;
        checked = check_candidate-Checked (submitting cl market w) c m e;
        posted = submit_match_for_market-IsPosted cl market c u.fill_price u.fill_amount submitted;
      }

  take_up-IsExecuted :
      (r : Result RepoError (Option MatchCandidate × Store))
      → acquire_match_candidate num asset sub w.now s₀ ≡ r
      → is_executed (take_up (submitting cl market w) s₀ r).0 ≡ true
      → IsExecuted num cl market w asset sub s₀
  unfolding take_up attempt
  take_up-IsExecuted (err e) q k = cc
  take_up-IsExecuted (ok (none, u)) q k = cc
  take_up-IsExecuted (ok (some c, u)) q k =
      attempt-IsExecuted c u (check_candidate (submitting cl market w) c) q refl k

-- A tick that ends as executed has sent a request, and only for the match that it acquired from the
-- store and that passed every check: the request carries both actions as they were signed, the fill
-- that the checks computed, the two accounts and the module that both actions name; and the executor
-- answered it with a status of success and a body that is blank or decodes to a response without an
-- error.
pub tick_executed :
    (num : Numeric) (cl : Client) (market : Text) (w : World) (asset sub : Text) (s t : Store)
    → tick_instrument num (submitting cl market w) asset sub s ≡ (executed, t)
    → IsExecuted num cl market w asset sub s
unfolding tick_instrument submitting
tick_executed num cl market w asset sub s t h =
    take_up-IsExecuted num cl market w asset sub s _ refl (ap (λ x. is_executed x.0) h)
