-- ===== src/Protocol/Admin.antt =====
-- pyxxl/protocol/admin_client.py: `_post_once` and `_post`, the failover over the admins and the
-- retries. What the network gives for a request is an argument, by the attempt and the address.
use pyxxl.Base.{
  ℕ, zero, suc, String, Bool, true, false, Option, none, some, List, [], ◌∷◌, nat_beq, or_else, not,
  ◌&&◌, if◌then◌else◌,
}

-- `Response`
pub record Response : Type 0 where
  pub code : ℕ
  pub msg : Option String

-- What `session.post` gives: a status with a body, read as JSON where the status is 200 and as text
-- elsewhere, or an error of the connection or of its time, or another exception, as for a body with
-- status 200 that is not the JSON of a response.
pub data Exchange : Type 0 where
  json : Response → Exchange
  status : ℕ → String → Exchange
  unreachable : String → Exchange
  breaks : String → Exchange

-- The message of an `XXLClientError`.
pub data ClientError : Type 0 where
  at_address : String → String → ClientError
  no_attempt : ClientError

-- What `_post` raises: an `XXLClientError`, or what it does not catch.
pub data PostError : Type 0 where
  client_error : ClientError → PostError
  other_error : String → PostError

-- How `_post_once` ends.
pub data Once : Type 0 where
  accepted : Response → Once
  refused : String → Once
  retryable : String → Once
  uncaught : String → Once

-- `response_data.msg or ""`
unfoldable pub text_of : Option String → String
text_of none = ""
text_of (some m) = m

-- `Response.ok`
unfoldable pub is_ok : Response → Bool
is_ok r = nat_beq r.code 200

-- _post_once, on what the network gives
unfoldable pub post_once : Exchange → Once
post_once (json r) = if is_ok r then accepted r else refused (text_of r.msg)
post_once (status n text) = refused text
post_once (unreachable why) = retryable why
post_once (breaks why) = uncaught why

-- How one round over the admins ends.
pub data Round : Type 0 where
  done : Response → Round
  broken : String → Round
  exhausted : Bool → Option ClientError → Round

-- `err` or the answer
pub data Answer : Type 0 where
  returned : Response → Answer
  raised : PostError → Answer

-- `last_error or XXLClientError(...)`
unfoldable pub give_up : Option ClientError → Answer
give_up none = raised (client_error no_attempt)
give_up (some e) = raised (client_error e)

-- the `try` of the inner loop of _post: `return`, or on with had_retryable_error and last_error
abbrev pub after_once : Once → String → (Bool → Option ClientError → Round) → Bool → Round
after_once (accepted r) url next had = done r
after_once (refused why) url next had = next had (some (at_address url why))
after_once (retryable why) url next had = next true (some (at_address url why))
after_once (uncaught why) url next had = broken why

-- the end of a round of the outer loop: `continue` where it is not the last attempt, or `break`
abbrev pub after_round : Round → ℕ → (Option ClientError → Answer) → Answer
after_round (done r) left next = returned r
after_round (broken why) left next = raised (other_error why)
after_round (exhausted had last) left next =
    if had && not (nat_beq left 0) then next last else give_up last

module _ (admin_urls : List String) (send : ℕ → String → Exchange) where
  -- the inner loop of _post
  abbrev pub post_round : ℕ → List String → Bool → Option ClientError → Round
  post_round times [] had last = exhausted had last
  post_round times (url ∷ urls) had last =
      after_once (post_once (send times url)) url (λ h l. post_round times urls h l) had

  -- the outer loop of _post, with the number of attempts that are left
  abbrev pub post_loop : ℕ → ℕ → Option ClientError → Answer
  post_loop zero times last = give_up last
  post_loop (suc left) times last =
      after_round (post_round times admin_urls false last) left (λ l. post_loop left (suc times) l)

  -- _post: `retry_times or self.retry_times`
  unfoldable pub post : Option ℕ → ℕ → Answer
  post retry_times default = post_loop (or_else retry_times default) 1 none
