-- ===== src/Ai/Http.antt =====
-- `requestJson` (packages/ai/src/http.ts): a request is tried again after failures that may pass.
pub mod Attempts
use bug_bounty_escrow.Prelude.{
  ℕ, zero, suc, ◌+◌, ◌*◌, ◌^◌, min, String, Bool, true, false, not, ◌&&◌, ◌||◌, leb, ltb, ◌==◌,
  if◌then◌else◌, Option, none, some,
}
use bug_bounty_escrow.Effect.{
  Failure, provider, Outcome, returned, raised, Environment, Action, pure, throw, ◌>>=◌, ◌>>◌,
  perform,
}

-- What `fetch` gives: no answer in time, another failure, or a response with its status and what
-- `response.json()` makes of its body. A body is a text.
pub data Response : Type 0 where
  aborted failed : Response
  answered : ℕ → Option String → Response

-- A fetch, and a pause with its milliseconds.
pub data Op : Type 0 where
  fetch : Op
  sleep : ℕ → Op

abbrev pub Answer : Op → Type 0
Answer fetch = Response
Answer (sleep _) = Unit {0}

unfoldable pub is_retryable_status : ℕ → Bool
is_retryable_status status = status == 408 || (status == 425 || (status == 429 || leb 500 status))

-- `backoffMs`
unfoldable pub backoff : ℕ → ℕ
backoff attempt = min 2000 (min 2000 (100 * 2 ^ attempt) + attempt * 17)

-- `response.ok`
abbrev is_ok : ℕ → Bool
is_ok status = leb 200 status && leb status 299

-- What one attempt comes to: the body, an error that ends the request, or a pause.
pub data Verdict : Type 0 where
  body : String → Verdict
  fail : String → Verdict
  again : Verdict

-- One attempt, when `left` more may follow.
unfoldable pub judge : ℕ → Response → Verdict
judge left Response.aborted = if ltb 0 left then again else fail "timeout"
judge left Response.failed = if ltb 0 left then again else fail "upstream_unavailable"
judge left (answered status content) =
    if is_ok status
    then elim content [ some text ↦ body text | none ↦ fail "invalid_response" ]
    else (if status == 401 || status == 403
        then fail "unauthorized"
        else (if not (is_retryable_status status) || not (ltb 0 left)
            then fail (if status == 429 then "rate_limited" else "upstream_unavailable")
            else again))

-- What follows an attempt: `rest` after a pause.
abbrev pub follow : Verdict → Action Answer String → Action Answer String
follow (body text) rest = pure text
follow (fail code) rest = throw (provider code false none)
follow again rest = rest

module _ (env : Environment Answer) where
  -- The attempts from number `attempt` on, when `left` more may follow this one. An exception of
  -- `fetch` is its answer `aborted` or `failed`.
  unfoldable pub attempts : ℕ → ℕ → Action Answer String
  attempts zero attempt =
      ◌>>=◌ (perform env fetch)
        (λ response. follow (judge 0 response) (throw (provider "upstream_unavailable" false none)))
  attempts (suc left) attempt = ◌>>=◌ (perform env fetch) (λ response.
      follow (judge (suc left) response)
        (◌>>=◌ (perform env (sleep (backoff attempt))) (λ _. attempts left (suc attempt))))

  -- `requestJson` with `maxRetries`.
  unfoldable pub request_json : ℕ → Action Answer String
  request_json max_retries = attempts max_retries 0
