-- ===== src/Webhook.antt =====
-- internal/webhook/webhook.go: the call of a webhook, which is tried again. The URL is one that a request
-- can be made of, and the pauses between the requests are left out.
use tork.Prelude.{ℕ, zero, suc, ◌+◌, ◌≤◌, Bool, ◌&&◌, ◌||◌, arith, leb, ltb, ◌==◌, if◌then◌else◌}

-- What comes of a request: a status, or no answer at all.
pub data Answer : Type 0 where
  no_answer : Answer
  status : ℕ → Answer

pub data Outcome : Type 0 where
  delivered given_up : Outcome
  rejected : ℕ → Outcome

abbrev pub webhook_default_max_attempts : ℕ
webhook_default_max_attempts = 5

-- `isRetryable`
unfoldable pub is_retryable : ℕ → Bool
is_retryable code = code == 429 || code == 500 || code == 502 || code == 503 || code == 504

unfoldable pub is_success : ℕ → Bool
is_success code = leb 200 code && ltb code 300

-- One answer, and what follows if the request is to be made again; with the number of requests.
unfoldable pub next_attempt : Answer → ℕ → Outcome × ℕ → Outcome × ℕ
unfolding is_retryable is_success
next_attempt no_answer made rest = rest
next_attempt (status code) made rest =
    if is_success code
    then (delivered, made)
    else if is_retryable code
    then rest
    else (rejected code, made)

-- `Call`, with as many attempts left, after so many requests; `answers` is the answer to each request.
unfoldable pub call_from : (ℕ → Answer) → ℕ → ℕ → Outcome × ℕ
unfolding next_attempt
call_from answers zero made = (given_up, made)
call_from answers (suc left) made =
    let rest = call_from answers left (suc made) in
    next_attempt (answers (suc made)) (suc made) rest

unfoldable pub call : (ℕ → Answer) → Outcome × ℕ
unfolding call_from
call answers = call_from answers webhook_default_max_attempts 0

next_attempt-le :
    (a : Answer) (made most : ℕ) (rest : Outcome × ℕ)
    → made ≤ most
    → rest.1 ≤ most
    → (next_attempt a made rest).1 ≤ most
unfolding next_attempt
next_attempt-le no_answer made most rest here later = later
next_attempt-le (status code) made most rest here later = ground (arith, here, later)

call_from-le :
    (answers : ℕ → Answer) (left made : ℕ) → (call_from answers left made).1 ≤ made + left
unfolding call_from
call_from-le answers zero made = omega arith
call_from-le answers (suc left) made =
    next_attempt-le (answers (suc made)) (suc made) (made + suc left)
      (call_from answers left (suc made)) (omega arith)
      (omega (arith, call_from-le answers left (suc made)))

-- A webhook is requested five times at most, whatever the answers are.
pub call-le : (answers : ℕ → Answer) → (call answers).1 ≤ 5
unfolding call
call-le answers = call_from-le answers 5 0
