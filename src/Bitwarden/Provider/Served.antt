-- ===== src/Bitwarden/Provider/Served.antt =====
-- What FetchSecret of internal/provider/bitwarden.go returns and counts.
use jasm.Base.{
  ◌≡◌, ◌≢◌, refl, sym, ap, ◌∙◌, subst, ℕ, Bool, true, false, [], ◌∷◌, some, Result, ok, err,
  Bool-cases, Option-cases, ◌⊎◌, inl, inr,
}
use jasm.Text.{Bytes}
use jasm.Errors.{Error}
use jasm.StrMap.{StrMap, lookup}
use jasm.Metrics.{ProviderMetrics, IsCounted, success, error, record_rate_limit, recorded}
use jasm.Reference.Bitwarden.{BitwardenSecretReference, parse, has_field}
use jasm.Reference.Bitwarden.RoundTrip.{bw_parse-validate}
use jasm.Bitwarden.Crypto.{ret, fail, panic}
use jasm.Bitwarden.Items.{DecryptedItem, to_secret_map}
use jasm.Bitwarden.Client.{BitwardenClient, is_cache_valid, is_authenticated, find_item}
use jasm.Bitwarden.Client.Session.{Environment, Call, authenticate}
use jasm.Bitwarden.Client.Session.Settled.{IsSession, IsSettled, authenticate-IsSettled}
use jasm.Bitwarden.Provider.{
  BitwardenProvider, Fetch, returned, panicked, blocked, is_bw_rate_limited, select, counted,
  answered, ensured, with_client, fetch_locked, fetch_secret,
}

-- What is returned of an item: all its secrets, or the one that the reference asks for.
abbrev pub IsSelected : BitwardenSecretReference → StrMap Bytes → StrMap Bytes → Type 0
IsSelected ref all secrets =
    ((has_field ref ≡ false) × (secrets ≡ all) × (all ≢ []))
    ⊎ ((has_field ref ≡ true)
        × ((value : Bytes) × (lookup ref.field all ≡ some value)
            × (secrets ≡ (ref.field, value) ∷ [])))

select-IsSelected :
    (ref : BitwardenSecretReference) (all secrets : StrMap Bytes)
    → select ref all ≡ ok secrets
    → IsSelected ref all secrets
unfolding select
select-IsSelected ref [] secrets h = cc
select-IsSelected ref (entry ∷ all) secrets h = elim (Bool-cases (has_field ref)) [
  | inr e ↦ inl (e, cc (rw e at h), λ z. cc z)
  | inl e ↦ elim (Option-cases (lookup ref.field (entry ∷ all))) [
    | inl none_there ↦ cc (rw (e, none_there) at h)
    | inr (value, there) ↦ inr (e, (value, there, cc (rw (e, there) at h)))
  ]
]

-- A call of FetchSecret that returns counts; one that panics or waits counts nothing.
abbrev pub Counts : BitwardenSecretReference → ProviderMetrics → Fetch × BitwardenProvider → Type 0
Counts ref m (returned r, after) = IsCounted m ref.folder (r, after.metrics)
Counts ref m (panicked, after) = after.metrics ≡ m
Counts ref m (blocked, after) = after.metrics ≡ m

counted-Counts :
    (ref : BitwardenSecretReference) (r : Result Error (StrMap Bytes)) (p : BitwardenProvider)
    → Counts ref p.metrics (counted ref r p)
unfolding counted recorded
counted-Counts ref (ok secrets) p = record {
  status = success;
  requests = refl;
  durations = refl;
  verdict = inl ((secrets, refl), refl);
  rate_limits = inl refl;
}
counted-Counts ref (err e) p = record {
  status = error;
  requests = refl;
  durations = refl;
  verdict = inr ((e, refl), refl);
  rate_limits = inl refl;
}

answered-Counts :
    (ref : BitwardenSecretReference) (r : Result Error DecryptedItem) (p : BitwardenProvider)
    → Counts ref p.metrics (answered ref r p)
unfolding answered recorded record_rate_limit
answered-Counts ref (ok item) p = counted-Counts ref (select ref (to_secret_map item)) p
answered-Counts ref (err e) p = elim (Bool-cases (is_bw_rate_limited e)) [
  | inl limited ↦ rw limited (record {
    status = error;
    requests = refl;
    durations = refl;
    verdict = inr ((_, refl), refl);
    rate_limits = inr refl;
  })
  | inr other ↦ rw other (record {
    status = error;
    requests = refl;
    durations = refl;
    verdict = inr ((_, refl), refl);
    rate_limits = inl refl;
  })
]

with_client-Counts :
    (ref : BitwardenSecretReference) (c : Call) (p : BitwardenProvider)
    → Counts ref p.metrics (with_client ref c p)
unfolding with_client recorded
with_client-Counts ref (panic, client) p = refl
with_client-Counts ref (fail e, client) p = record {
  status = error;
  requests = refl;
  durations = refl;
  verdict = inr ((_, refl), refl);
  rate_limits = inl refl;
}
with_client-Counts ref (ret done, client) p =
    answered-Counts ref (find_item client.cache ref.folder ref.item_name)
      (record p { client = client })

counted_ok :
    (ref : BitwardenSecretReference) (r : Result Error (StrMap Bytes)) (p : BitwardenProvider)
    (secrets : StrMap Bytes)
    → (counted ref r p).0 ≡ returned (ok secrets)
    → (r ≡ ok secrets) × ((counted ref r p).1.client ≡ p.client)
unfolding counted
counted_ok ref (ok s) p secrets h = (cc h, refl)
counted_ok ref (err e) p secrets h = cc h

answered_ok :
    (ref : BitwardenSecretReference) (r : Result Error DecryptedItem) (p : BitwardenProvider)
    (secrets : StrMap Bytes)
    → (answered ref r p).0 ≡ returned (ok secrets)
    → (item : DecryptedItem) × (r ≡ ok item)
      × IsSelected ref (to_secret_map item) secrets
      × ((answered ref r p).1.client ≡ p.client)
unfolding answered
answered_ok ref (err e) p secrets h = elim (Bool-cases (is_bw_rate_limited e)) [
  | inl limited ↦ cc (rw limited at h)
  | inr other ↦ cc (rw other at h)
]
answered_ok ref (ok item) p secrets h =
    let (chosen, same) = counted_ok ref (select ref (to_secret_map item)) p secrets h in
    (item, refl, select-IsSelected ref (to_secret_map item) secrets chosen, same)

module _ (env : Environment) (cache_now token_now : ℕ) where
  -- The client that was read had a valid cache and token, or began a session in this call; the item was
  -- found in its cache, and the result is what the reference asks of it.
  pub record IsServed (ref : BitwardenSecretReference) (before : BitwardenProvider)
      (after : BitwardenClient) (secrets : StrMap Bytes) : Type 0 where
    pub item : DecryptedItem
    pub ready :
        ((is_cache_valid cache_now before.client ≡ true)
          × (is_authenticated token_now before.client ≡ true)
          × (after ≡ before.client))
        ⊎ IsSession env before.password before.client after
    pub found : find_item after.cache ref.folder ref.item_name ≡ ok item
    pub selected : IsSelected ref (to_secret_map item) secrets

  pub fetch_secret-parsed :
      (path : Bytes) (p : BitwardenProvider) (ref : BitwardenSecretReference)
      → parse path ≡ ok ref
      → fetch_secret env cache_now token_now path p
        ≡ fetch_locked env cache_now token_now p.locked ref p
  unfolding fetch_secret
  fetch_secret-parsed path p ref h = rw (h, (bw_parse-validate path h).1)

  ensured_cases :
      (password : Bytes) (client : BitwardenClient)
      → ((is_cache_valid cache_now client ≡ true)
          × (is_authenticated token_now client ≡ true)
          × (ensured env cache_now token_now password client ≡ (ret tt, client)))
        ⊎ (ensured env cache_now token_now password client ≡ authenticate env password client)
  unfolding ensured
  ensured_cases password client = elim (Bool-cases (is_cache_valid cache_now client)) [
    | inr e ↦ inr (rw e)
    | inl e ↦ elim (Bool-cases (is_authenticated token_now client)) [
      | inr f ↦ inr (rw (e, f))
      | inl f ↦ inl (e, f, rw (e, f))
    ]
  ]

  session_begun :
      (password : Bytes) (client after : BitwardenClient)
      → authenticate env password client ≡ (ret tt, after)
      → IsSession env password client after
  session_begun password client after h =
      subst (λ c. IsSettled env password client c) h (authenticate-IsSettled env password client)

  with_client-IsServed :
      (ref : BitwardenSecretReference) (c : Call) (p : BitwardenProvider) (secrets : StrMap Bytes)
      → ensured env cache_now token_now p.password p.client ≡ c
      → (with_client ref c p).0 ≡ returned (ok secrets)
      → IsServed ref p (with_client ref c p).1.client secrets
  unfolding with_client
  with_client-IsServed ref (panic, after) p secrets got h = cc h
  with_client-IsServed ref (fail e, after) p secrets got h = cc h
  with_client-IsServed ref (ret done, after) p secrets got h =
      let (item, found, chosen, same) =
        answered_ok ref (find_item after.cache ref.folder ref.item_name)
          (record p { client = after }) secrets h in
      rw same (record {
        item = item;
        ready = elim (ensured_cases p.password p.client) [
          | inl (a, b, c) ↦ inl (a, b, ap (λ q. q.1) (sym got ∙ c))
          | inr c ↦ inr (session_begun p.password p.client after (sym c ∙ got))
        ];
        found = found;
        selected = chosen;
      })

  fetch_locked-IsServed :
      (locked : Bool) (ref : BitwardenSecretReference) (p : BitwardenProvider)
      (secrets : StrMap Bytes)
      → (fetch_locked env cache_now token_now locked ref p).0 ≡ returned (ok secrets)
      → IsServed ref p (fetch_locked env cache_now token_now locked ref p).1.client secrets
  unfolding fetch_locked
  fetch_locked-IsServed true ref p secrets h = cc h
  fetch_locked-IsServed false ref p secrets h =
      with_client-IsServed ref (ensured env cache_now token_now p.password p.client) p secrets refl
        h

  -- FetchSecret, where it returns secrets for a path that parses: the client had a cache and a token that
  -- are not expired, or has begun a session in this call, with all that a session asserts; the item was
  -- found in the cache of the client that is left; and the result is the one field that was asked for, or
  -- the whole of a secret map that is not empty.
  pub bw_fetch_secret-IsServed :
      (path : Bytes) (p : BitwardenProvider) (ref : BitwardenSecretReference)
      (secrets : StrMap Bytes)
      → parse path ≡ ok ref
      → (fetch_secret env cache_now token_now path p).0 ≡ returned (ok secrets)
      → IsServed ref p (fetch_secret env cache_now token_now path p).1.client secrets
  bw_fetch_secret-IsServed path p ref secrets parsed h =
      let same = fetch_secret-parsed path p ref parsed in
      rw same (fetch_locked-IsServed p.locked ref p secrets (rw same at h))

  fetch_locked-Counts :
      (locked : Bool) (ref : BitwardenSecretReference) (p : BitwardenProvider)
      → Counts ref p.metrics (fetch_locked env cache_now token_now locked ref p)
  unfolding fetch_locked
  fetch_locked-Counts true ref p = refl
  fetch_locked-Counts false ref p =
      with_client-Counts ref (ensured env cache_now token_now p.password p.client) p

  -- A fetch whose path parses, however it ends: where it returns, it counts one request and one duration for
  -- its folder, both with the status of its result, and at most one rate limit; where it panics or waits, it
  -- counts nothing.
  pub bw_fetch_secret-Counts :
      (path : Bytes) (p : BitwardenProvider) (ref : BitwardenSecretReference)
      → parse path ≡ ok ref
      → Counts ref p.metrics (fetch_secret env cache_now token_now path p)
  bw_fetch_secret-Counts path p ref parsed =
      rw (fetch_secret-parsed path p ref parsed) (fetch_locked-Counts p.locked ref p)
