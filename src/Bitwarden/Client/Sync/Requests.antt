-- ===== src/Bitwarden/Client/Sync/Requests.antt =====
-- Which attempt decides SyncVault of internal/provider/bitwarden_client.go.
use jasm.Base.{
  ℕ, zero, suc, ◌+◌, ◌≤◌, ◌<◌, ◌≡◌, refl, sym, ◌++◌, none, some, Result, err, ◌⊎◌, inl, inr, arith,
  [],
}
use jasm.Text.{Bytes, codes}
use jasm.Errors.{Error, errorf, wrap}
use jasm.Bitwarden.Client.Sync.{
  Network, max_retries, decimal, settle, sleep_before, sync_loop, sync_response,
}

-- The error of a sync whose attempts all failed.
abbrev pub exhausted : Error → Error
exhausted e = wrap (codes "sync failed after " ++ (decimal max_retries ++ codes " retries: ")) e

module _ {S : Type 0} (decode : Bytes → Result Error S) (network : Network) where
  -- The attempt is made and fails in a way that is tried again.
  pub record IsTransient (attempt : ℕ) : Type 0 where
    pub awake : sleep_before decode network attempt ≡ none
    pub error : Error
    pub again : settle decode (network.reply attempt) ≡ inr error

  -- The attempt ends the loop: the context is done before it, or its reply is conclusive.
  abbrev pub EndsWith : ℕ → Result Error S → Type 0
  EndsWith attempt r =
      ((e : Error) × (sleep_before decode network attempt ≡ some e) × (r ≡ err e))
      ⊎ ((sleep_before decode network attempt ≡ none)
          × (settle decode (network.reply attempt) ≡ inl r))

  loop_ends :
      (left n attempt last : ℕ) (last_err : Error) (r : Result Error S)
      → last ≡ attempt + n
      → n < left
      → ((i : ℕ) → attempt ≤ i → i < last → IsTransient i)
      → EndsWith last r
      → sync_loop decode network left attempt last_err ≡ r
  unfolding sync_loop
  loop_ends zero n attempt last last_err r at room transient ends = absurd (omega arith)
  loop_ends (suc left) zero attempt last last_err r at room transient ends =
      let here : attempt ≡ last = omega arith in
      elim ends [
        | inl (e, done, same) ↦ rw (sync_loop, rw (sym here) at done) (sym same)
        | inr (awake, stop) ↦ rw (sync_loop, rw (sym here) at awake, rw (sym here) at stop)
      ]
  loop_ends (suc left) (suc n) attempt last last_err r at room transient ends =
      let t = transient attempt (omega arith) (omega arith) in
      rw (sync_loop, t.awake, t.again)
        (loop_ends left n (suc attempt) last t.error r (omega arith) (omega arith)
          (λ i low high. transient i (omega arith) high) ends)

  loop_exhausted :
      (left attempt last : ℕ) (last_err e : Error)
      → suc last ≡ attempt + left
      → attempt ≤ last
      → ((i : ℕ) → attempt ≤ i → i ≤ last → IsTransient i)
      → settle decode (network.reply last) ≡ inr e
      → sync_loop decode network left attempt last_err ≡ err (exhausted e)
  unfolding sync_loop
  loop_exhausted zero attempt last last_err e at low transient again = absurd (omega arith)
  loop_exhausted (suc zero) attempt last last_err e at low transient again =
      let t = transient attempt (omega arith) low in
      let here : attempt ≡ last = omega arith in rw (sync_loop, t.awake, rw (sym here) at again)
  loop_exhausted (suc (suc left)) attempt last last_err e at low transient again =
      let t = transient attempt (omega arith) low in
      rw (sync_loop, t.awake, t.again)
        (loop_exhausted (suc left) (suc attempt) last t.error e (omega arith) (omega arith)
          (λ i l h. transient i (omega arith) h) again)

  -- SyncVault makes four requests at most: the first attempt that is not tried again decides its result,
  -- be it by a reply or by the end of the context before it.
  pub sync_response_ends :
      (last : ℕ) (r : Result Error S)
      → last ≤ max_retries
      → ((i : ℕ) → i < last → IsTransient i)
      → EndsWith last r
      → sync_response decode network ≡ r
  unfolding sync_response
  sync_response_ends last r room transient ends =
      loop_ends (max_retries + 1) last 0 last (errorf []) r (omega arith) (omega arith)
        (λ i low high. transient i high) ends

  -- Where all four attempts are tried again, the result is the error of the last one, wrapped.
  pub sync_response-exhausted :
      (e : Error)
      → ((i : ℕ) → i ≤ max_retries → IsTransient i)
      → settle decode (network.reply max_retries) ≡ inr e
      → sync_response decode network ≡ err (exhausted e)
  unfolding sync_response
  sync_response-exhausted e transient again =
      loop_exhausted (max_retries + 1) 0 max_retries (errorf []) e refl (omega arith)
        (λ i low high. transient i high) again
