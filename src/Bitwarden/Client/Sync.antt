-- ===== src/Bitwarden/Client/Sync.antt =====
-- SyncVault of internal/provider/bitwarden_client.go, to the reply that it decodes: the requests and the
-- waits between them. The server, the context and the JSON decoder are parameters.
pub mod Decided
pub mod Requests
use jasm.Base.{
  ℤ, pos, negsuc, ℕ, zero, suc, ◌+◌, ◌*◌, ◌/◌, ◌%◌, ◌^◌, Bool, true, false, ◌&&◌, ◌||◌, not, [],
  ◌∷◌, ◌++◌, Option, none, some, Result, ok, err, map_err, ◌⊎◌, inl, inr, ltb, leb, ◌==◌,
  if◌then◌else◌,
}
use jasm.Text.{Bytes, codes}
use jasm.Errors.{Error, errorf, wrap}

-- maxRetries, initialBackoff and maxBackoff
abbrev pub max_retries : ℕ
max_retries = 3

abbrev pub initial_backoff : ℕ
initial_backoff = 1_000_000_000

abbrev pub max_backoff : ℕ
max_backoff = 30_000_000_000

-- The verb %d of fmt, for an int, which has at most nineteen digits.
digits : ℕ → ℕ → Bytes
digits zero n = []
digits (suc more) n =
    let rest = digits more (n / 10) in
    if ltb n 10 then (n + b'0') ∷ [] else rest ++ (n % 10 + b'0') ∷ []

unfoldable pub decimal : ℕ → Bytes
unfolding digits
decimal n = digits 19 n

-- %d of an int
unfoldable pub decimal_int : ℤ → Bytes
unfolding decimal
decimal_int (pos n) = decimal n
decimal_int (negsuc n) = b'-' ∷ decimal (n + 1)

-- isRetryableError
unfoldable pub is_retryable_error : Option Error → ℕ → Bool
is_retryable_error (some e) status_code = true
is_retryable_error none status_code = status_code == 429 || leb 500 status_code

-- The time that backoffSleep waits; the product wraps around as an int64, and `>` is signed.
unfoldable pub backoff : ℕ → ℕ
backoff attempt =
    let time = (initial_backoff * 2 ^ attempt) % 2 ^ 64 in
    if ltb max_backoff time && ltb time (2 ^ 63) then max_backoff else time

-- What comes of an attempt: no request could be made, no response came, or a response with its status
-- and body.
pub data Reply : Type 0 where
  unmade lost : Error → Reply
  response : ℕ → Bytes → Reply

-- The server's reply to each attempt, and whether the context ends while backoffSleep waits for the time.
pub record Network : Type 0 where
  pub reply : ℕ → Reply
  pub context_error : ℕ → ℕ → Option Error

module _ {S : Type 0} (decode : Bytes → Result Error S) where
  -- One round of the loop: the end of it, or `lastErr` and `continue`.
  unfoldable pub settle : Reply → Result Error S ⊎ Error
  unfolding is_retryable_error decimal
  settle (unmade e) = inl (err (wrap (codes "create sync request: ") e))
  settle (lost e) = inr (wrap (codes "sync request: ") e)
  settle (response status body) =
      if is_retryable_error none status
      then inr (errorf (codes "sync failed: " ++ decimal status))
      else if not (status == 200)
      then inl (err (errorf (codes "sync failed: " ++ (decimal status ++ (codes " - " ++ body)))))
      else inl (map_err (wrap (codes "decode sync: ")) (decode body))

  -- if attempt > 0 { backoffSleep(ctx, attempt-1) }
  unfoldable pub sleep_before : Network → ℕ → Option Error
  unfolding backoff
  sleep_before network zero = none
  sleep_before network (suc attempt) = network.context_error attempt (backoff attempt)

  -- The loop, with so many attempts left, and what follows it where all of them failed.
  unfoldable pub sync_loop : Network → ℕ → ℕ → Error → Result Error S
  unfolding settle sleep_before decimal
  sync_loop network zero attempt last_err =
      err
        (wrap (codes "sync failed after " ++ (decimal max_retries ++ codes " retries: ")) last_err)
  sync_loop network (suc left) attempt last_err = elim (sleep_before network attempt) [
    | some e ↦ err e
    | none ↦ elim (settle (network.reply attempt)) [
      | inl result ↦ result
      | inr e ↦ sync_loop network left (suc attempt) e
    ]
  ]

  -- SyncVault, to the decoded response; the first round replaces `lastErr`
  unfoldable pub sync_response : Network → Result Error S
  unfolding sync_loop
  sync_response network = sync_loop network (max_retries + 1) 0 (errorf [])
