-- ===== src/Matching/Executor/Submit.antt =====
-- internal/matching/executor.go: `SubmitMatchForMarket`, the texts of its errors, and the tick that
-- submits through it. `quote` is the verb `%q`.
use markets_service.Base.{
  ℕ, Bool, true, not, ◌&&◌, ◌||◌, [], ◌++◌, Option, Result, ok, err, ◌>>=◌, ◌>>◌, fail_if, leb, ltb,
  if◌then◌else◌,
}
use markets_service.Matching.Engine.{World}
use markets_service.Matching.Executor.{
  ActionError, invalid_json, undecodable, missing, mismatch, not_address, ExecutorError,
  url_required, invalid_asset_address, bad_taker_action, bad_maker_action, invalid_taker_module,
  maker_module_mismatch, not_sent, status_only, status_body, decode_failed, rejected,
  ExecutorRequest, build_executor_request,
}
use markets_service.Orders.{MatchCandidate}
use markets_service.Text.{Text, codes, is_empty, trim_space}
use markets_service.Text.Decimal.{print_nat}

pub record ExecutorResponse : Type 0 where
  pub accepted : Bool
  pub tx_hash : Text
  pub error : Text

-- The first MiB of an HTTP answer's body, with its status.
pub record HttpResponse : Type 0 where
  pub status_code : ℕ
  pub body : Text

-- What the client is given, and the code outside the repository that it calls: the connection, and
-- `encoding/json`. The texts of their errors are theirs.
pub record Client : Type 0 where
  pub url : Text
  pub manager_data : Text
  pub post : ExecutorRequest → Result Text HttpResponse
  pub unmarshal : Text → Result Text ExecutorResponse
  pub float : Text → Option Text
  pub quote : Text → Text
  pub undecodable_text : Text

unfoldable pub wrap_text {κ} :
    {A : Type κ} → (Text → ExecutorError) → Result Text A → Result ExecutorError A
wrap_text wrap (ok a) = ok a
wrap_text wrap (err e) = err (wrap e)

-- The answer, from the body on.
unfoldable pub read_response : Client → HttpResponse → Result ExecutorError ExecutorResponse
unfolding wrap_text
read_response cl resp = do
  fail_if (ltb resp.status_code 200 || leb 300 resp.status_code) (
      if is_empty resp.body
      then status_only (print_nat resp.status_code)
      else status_body (print_nat resp.status_code) (trim_space resp.body))
  if is_empty (trim_space resp.body)
      then ok (record { accepted = true; tx_hash = []; error = [] })
      else (do
        response ← wrap_text decode_failed (cl.unmarshal resp.body)
        fail_if (not (is_empty response.error)) (rejected response.error)
        if not response.accepted && is_empty response.tx_hash
            then ok (record response { accepted = true })
            else ok response)

-- `SubmitMatchForMarket`
unfoldable pub submit_match_for_market :
    Client → Text → MatchCandidate → Text → Text → Result ExecutorError ExecutorResponse
unfolding wrap_text
submit_match_for_market cl market c price amount = do
  fail_if (is_empty cl.url) url_required
  request ← build_executor_request cl.float market c cl.manager_data price amount
  resp ← wrap_text not_sent (cl.post request)
  read_response cl resp

-- `SubmitMatch`
unfoldable pub submit_match :
    Client → MatchCandidate → Text → Text → Result ExecutorError ExecutorResponse
submit_match cl c price amount = submit_match_for_market cl (codes "BTCUSDC-CVXPERP") c price amount

-- The texts of the errors.
unfoldable pub action_message : Client → ActionError → Text
action_message cl invalid_json = codes "invalid json"
action_message cl undecodable = cl.undecodable_text
action_message cl (missing field) = codes "missing " ++ field
action_message cl (mismatch field) = field ++ codes " mismatch"
action_message cl (not_address field) = field ++ codes " must be a 20-byte 0x address"

unfoldable pub error_message : Client → ExecutorError → Text
unfolding action_message
error_message cl url_required = codes "EXECUTOR_URL is required"
error_message cl (invalid_asset_address a) = codes "invalid asset address " ++ cl.quote a
error_message cl (bad_taker_action e) = codes "parse taker action_json: " ++ action_message cl e
error_message cl (bad_maker_action e) = codes "parse maker action_json: " ++ action_message cl e
error_message cl (invalid_taker_module a) = codes "invalid taker module address " ++ cl.quote a
error_message cl (maker_module_mismatch taker_module maker_module) =
    codes "maker module address mismatch: taker=" ++ taker_module ++ codes " maker=" ++ maker_module
error_message cl (not_sent text) = text
error_message cl (status_only code) = codes "executor returned status " ++ code
error_message cl (status_body code body) =
    codes "executor returned status " ++ code ++ codes ": " ++ body
error_message cl (decode_failed text) = codes "decode executor response: " ++ text
error_message cl (rejected text) = codes "executor rejected match: " ++ text

-- What the tick sees of a submission.
unfoldable pub answer_of : Client → Result ExecutorError ExecutorResponse → Result Text (Unit {0})
answer_of cl (ok response) = ok tt
answer_of cl (err e) = err (error_message cl e)

-- A tick whose executor is this client.
unfoldable pub submitting : Client → Text → World → World
unfolding answer_of
submitting cl market w = record w {
  execute = λ c u. answer_of cl (submit_match_for_market cl market c u.fill_price u.fill_amount);
}

-- `NewExecutorClient`, with the connection and the decoder of a client.
unfoldable pub new_executor_client : Text → Text → Client → Client
new_executor_client url manager_data cl = record cl {
  url = trim_space url;
  manager_data = trim_space manager_data;
}
