-- ===== src/Bitwarden/Client/Sync/Decided.antt =====
-- Every call of SyncVault of internal/provider/bitwarden_client.go ends, and which attempt ends it.
use jasm.Base.{
  ℕ, zero, suc, ◌+◌, ◌≤◌, ◌<◌, ◌≡◌, refl, sym, Option, none, some, Result, err, ◌⊎◌, inl, inr,
  arith, ltb, Bool-cases, subst,
}
use jasm.Text.{Bytes}
use jasm.Errors.{Error}
use jasm.Bitwarden.Client.Sync.{Network, max_retries, settle, sleep_before, sync_response}
use jasm.Bitwarden.Client.Sync.Requests.{
  IsTransient, EndsWith, exhausted, sync_response_ends, sync_response-exhausted,
}

module _ {S : Type 0} (decode : Bytes → Result Error S) (network : Network) where
  -- An attempt is conclusive, or it is tried again.
  IsOver : ℕ → Type 0
  IsOver attempt = (r : Result Error S) × EndsWith decode network attempt r

  settled_cases :
      (attempt : ℕ) (o : Result Error S ⊎ Error)
      → sleep_before decode network attempt ≡ none
      → settle decode (network.reply attempt) ≡ o
      → IsTransient decode network attempt ⊎ IsOver attempt
  unfolding IsOver
  settled_cases attempt (inl r) awake h = inr (r, inr (awake, h))
  settled_cases attempt (inr e) awake h = inl (record { awake = awake; error = e; again = h })

  attempt_cases :
      (attempt : ℕ) (o : Option Error)
      → sleep_before decode network attempt ≡ o
      → IsTransient decode network attempt ⊎ IsOver attempt
  unfolding IsOver
  attempt_cases attempt (some e) h = inr (err e, inl (e, h, refl))
  attempt_cases attempt none h =
      settled_cases attempt (settle decode (network.reply attempt)) h refl

  -- The first attempt that is over, of so many.
  record IsFirstOver (n : ℕ) : Type 0 where
    last : ℕ
    low : last < n
    before : (i : ℕ) → i < last → IsTransient decode network i
    over : IsOver last

  all_up_to :
      (n : ℕ)
      → ((i : ℕ) → i < n → IsTransient decode network i)
      → IsTransient decode network n
      → (i : ℕ) → i < suc n
      → IsTransient decode network i
  all_up_to n before here i low = elim (Bool-cases (ltb i n)) [
    | inl e ↦ before i (ground arith)
    | inr e ↦ let same : n ≡ i = ground arith in subst (λ k. IsTransient decode network k) same here
  ]

  first_over : (n : ℕ) → ((i : ℕ) → i < n → IsTransient decode network i) ⊎ IsFirstOver n
  first_over zero = inl (λ i h. absurd (omega arith))
  first_over (suc n) = elim (first_over n) [
    | inr f ↦
        inr (record { last = f.last; low = omega (arith, f.low); before = f.before; over = f.over })
    | inl before ↦ elim (attempt_cases n (sleep_before decode network n) refl) [
      | inr o ↦ inr (record { last = n; low = omega arith; before = before; over = o })
      | inl here ↦ inl (all_up_to n before here)
    ]
  ]

  -- What a call makes: so many attempts that are tried again and one that is conclusive, of four at most,
  -- whose end is the result; or four that are tried again, and the error of the last one.
  abbrev pub IsDecided : Result Error S → Type 0
  IsDecided r =
      ((last : ℕ) × (last ≤ max_retries)
        × ((i : ℕ) → i < last → IsTransient decode network i)
        × EndsWith decode network last r)
      ⊎ (((i : ℕ) → i ≤ max_retries → IsTransient decode network i)
          × ((e : Error) × (settle decode (network.reply max_retries) ≡ inr e)
              × (r ≡ err (exhausted e))))

  -- Whatever the server replies and whenever the context ends, SyncVault makes four requests at most and
  -- ends: with the end of its first attempt that is not tried again, which is the error of the context or
  -- the outcome of a conclusive reply; or, where all four are tried again, with the error of the last one.
  pub sync_response-IsDecided : IsDecided (sync_response decode network)
  unfolding IsOver
  sync_response-IsDecided = elim (first_over (max_retries + 1)) [
    | inr f ↦
        let (r, ends) = f.over in
        let same =
          sync_response_ends decode network f.last r (omega (arith, f.low)) f.before ends in
        inl (
          f.last,
          omega (arith, f.low),
          f.before,
          subst (λ q. EndsWith decode network f.last q) (sym same) ends,
        )
    | inl all ↦
        let t = all max_retries (omega arith) in
        let transient : (i : ℕ) → i ≤ max_retries → IsTransient decode network i =
          λ i low. all i (omega arith) in
        inr (
          transient,
          (t.error, t.again, sync_response-exhausted decode network t.error transient t.again),
        )
  ]
