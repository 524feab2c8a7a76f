-- ===== src/Registry/Default.antt =====
-- What DefaultProviderRegistry of internal/provider/provider.go registers and starts.
use jasm.Base.{
  Go, ret, fail, panic, lifted, and_then, ◌≡◌, refl, sym, ap, ◌∙◌, Bool, true, false, List, [], ◌∷◌,
  ◌++◌, Option, none, some, Result, ok, err, subst, if◌then◌else◌, arith, append-nil, ◌⊎◌, inl, inr,
}
use jasm.Text.{Bytes, codes, str_eq}
use jasm.Text.Laws.{str_eq_iff}
use jasm.Errors.{Error}
use jasm.StrMap.{lookup, lookup-insert}
use jasm.Registry.{
  SecretProvider, new_provider_registry, register, get, Fetcher, Setup, Started, provider, aws_name,
  one_password_name, bitwarden_name, add_started, not_created, with_aws, with_configured_both,
  has_token, bitwarden_enabled, with_configured, default_provider_registry,
}

-- A provider that is configured and was made.
abbrev pub made_if : Bytes → Bool → Go Error Fetcher → Option SecretProvider
made_if name false r = none
made_if name true (fail e) = none
made_if name true panic = none
made_if name true (ret fetch) = some (provider name fetch)

abbrev pub started_if : Bytes → Bool → List Bytes
started_if name false = []
started_if name true = name ∷ []

-- The provider of each name.
abbrev pub expected : Setup → Bytes → Option SecretProvider
expected s name =
    if str_eq bitwarden_name name
    then made_if bitwarden_name (bitwarden_enabled s) s.new_bitwarden_provider
    else if str_eq one_password_name name
    then made_if one_password_name (has_token s) (lifted s.new_one_password_provider)
    else if str_eq aws_name name
    then made_if aws_name true (lifted s.new_aws_secrets_manager_provider)
    else none

-- A provider that was made, if it has to be.
abbrev pub IsMade : Bool → Go Error Fetcher → Type 0
IsMade configured made = (configured ≡ false) ⊎ ((fetch : Fetcher) × (made ≡ ret fetch))

-- A provider that has to be made fails, and the error is its own, wrapped.
abbrev pub IsFailed : Bytes → Bool → Go Error Fetcher → Error → Type 0
IsFailed title configured made e =
    (configured ≡ true) × ((cause : Error) × (made ≡ fail cause) × (e ≡ not_created title cause))

-- What the result tells: a registry with each provider under its name, those started that have to be, and
-- that each of the three was made where it has to be; an error from a provider that has to be there and
-- could not be made; or a panic of NewBitwardenProvider.
abbrev pub IsDefault : Setup → Go Error Started → Type 0
IsDefault s (ret t) =
    ((name : Bytes) → get t.registry name ≡ expected s name)
    × (t.started
        ≡ started_if one_password_name (has_token s)
          ++ started_if bitwarden_name (bitwarden_enabled s))
    × IsMade true (lifted s.new_aws_secrets_manager_provider)
    × IsMade (has_token s) (lifted s.new_one_password_provider)
    × IsMade (bitwarden_enabled s) s.new_bitwarden_provider
IsDefault s (fail e) =
    IsFailed (codes "AWS") true (lifted s.new_aws_secrets_manager_provider) e
    ⊎ (IsFailed (codes "1Password") (has_token s) (lifted s.new_one_password_provider) e
        ⊎ IsFailed (codes "Bitwarden") (bitwarden_enabled s) s.new_bitwarden_provider e)
IsDefault s panic = (bitwarden_enabled s ≡ true) × (s.new_bitwarden_provider ≡ panic)

-- One configured provider more.
pub record IsAdded (name : Bytes) (configured : Bool) (made : Go Error Fetcher) (t u : Started)
    : Type 0 where
  pub each :
      (k : Bytes)
      → get u.registry k ≡ (
          if str_eq name k
          then (if configured then made_if name true made else get t.registry k)
          else get t.registry k)
  pub starts : u.started ≡ t.started ++ started_if name configured
  pub is_made : IsMade configured made

abbrev Added : Bytes → Bytes → Bool → Go Error Fetcher → Started → Go Error Started → Type 0
Added title name configured made t (ret u) = IsAdded name configured made t u
Added title name configured made t (fail e) = IsFailed title configured made e
Added title name configured made t panic = (configured ≡ true) × (made ≡ panic)

with_configured-Added :
    (title name : Bytes) (configured : Bool) (made : Go Error Fetcher) (t : Started)
    → Added title name configured made t (with_configured title name configured made t)
unfolding with_configured add_started register get
with_configured-Added title name false made t = record {
  each = λ k. ground arith;
  starts = sym (append-nil t.started);
  is_made = inl refl;
}
with_configured-Added title name true (fail e) t = (refl, (e, refl, refl))
with_configured-Added title name true panic t = (refl, refl)
with_configured-Added title name true (ret fetch) t = record {
  each = λ k. lookup-insert name k (provider name fetch) t.registry.providers;
  starts = refl;
  is_made = inr (fetch, refl);
}

-- The three names are different.
bitwarden_alone :
    (name : Bytes)
    → str_eq bitwarden_name name ≡ true
    → (str_eq one_password_name name ≡ false) × (str_eq aws_name name ≡ false)
bitwarden_alone name h =
    subst (λ n. (str_eq one_password_name n ≡ false) × (str_eq aws_name n ≡ false))
      ((str_eq_iff bitwarden_name name).0 h) (unfold str_eq in (refl, refl))

one_password_alone :
    (name : Bytes) → str_eq one_password_name name ≡ true → str_eq aws_name name ≡ false
one_password_alone name h =
    subst (λ n. str_eq aws_name n ≡ false) ((str_eq_iff one_password_name name).0 h)
      (unfold str_eq in refl)

get-with_aws :
    (aws : Fetcher) (name : Bytes)
    → get (with_aws aws).registry name
      ≡ (if str_eq aws_name name then some (provider aws_name aws) else none)
unfolding register get new_provider_registry lookup
get-with_aws aws name = lookup-insert aws_name name (provider aws_name aws) []

not_panic : {A : Type 0} (r : Result Error A) → ¬ (lifted r ≡ panic)
not_panic (ok a) h = cc h
not_panic (err e) h = cc h

final-IsDefault :
    (s : Setup) (aws : Fetcher) (t : Started) (v : Go Error Started)
    → s.new_aws_secrets_manager_provider ≡ ok aws
    → IsAdded one_password_name (has_token s) (lifted s.new_one_password_provider) (with_aws aws) t
    → Added (codes "Bitwarden") bitwarden_name (bitwarden_enabled s) s.new_bitwarden_provider t v
    → IsDefault s v
final-IsDefault s aws t (fail e) made o h = inr (inr h)
final-IsDefault s aws t panic made o h = h
final-IsDefault s aws t (ret v) made o b = (
  λ name. ground (
    arith,
    b.each name,
    o.each name,
    get-with_aws aws name,
    bitwarden_alone name,
    one_password_alone name,
    made,
  ),
  b.starts ∙ ap (λ l. l ++ started_if bitwarden_name (bitwarden_enabled s)) o.starts,
  inr (aws, ap lifted made),
  o.is_made,
  b.is_made,
)

second-IsDefault :
    (s : Setup) (aws : Fetcher) (u : Go Error Started)
    → s.new_aws_secrets_manager_provider ≡ ok aws
    → Added
        (codes "1Password")
        one_password_name
        (has_token s)
        (lifted s.new_one_password_provider)
        (with_aws aws)
        u
    → IsDefault s (
        and_then u (
          with_configured
            (codes "Bitwarden")
            bitwarden_name
            (bitwarden_enabled s)
            s.new_bitwarden_provider))
second-IsDefault s aws (fail e) made o = inr (inl o)
second-IsDefault s aws panic made o = absurd (not_panic s.new_one_password_provider o.1)
second-IsDefault s aws (ret t) made o =
    final-IsDefault s aws t
      (with_configured (codes "Bitwarden") bitwarden_name (bitwarden_enabled s)
        s.new_bitwarden_provider t)
      made o
      (with_configured-Added (codes "Bitwarden") bitwarden_name (bitwarden_enabled s)
        s.new_bitwarden_provider t)

first-IsDefault :
    (s : Setup) (r : Result Error Fetcher)
    → s.new_aws_secrets_manager_provider ≡ r
    → IsDefault s (with_configured_both s r)
first-IsDefault s (err e) made = inl (refl, (e, ap lifted made, refl))
first-IsDefault s (ok aws) made =
    second-IsDefault s aws
      (with_configured (codes "1Password") one_password_name (has_token s)
        (lifted s.new_one_password_provider) (with_aws aws))
      made
      (with_configured-Added (codes "1Password") one_password_name (has_token s)
        (lifted s.new_one_password_provider) (with_aws aws))

-- DefaultProviderRegistry returns a registry that holds the AWS provider, the 1Password provider where there
-- is a token and the Bitwarden provider where it is enabled, each under its name, and nothing else, and has
-- started the last two, and then every provider that has to be there was made; or the wrapped error of one
-- that has to be there and could not be made; or it panics, and then Bitwarden is enabled and
-- NewBitwardenProvider panicked.
pub default_provider_registry-IsDefault : (s : Setup) → IsDefault s (default_provider_registry s)
unfolding default_provider_registry
default_provider_registry-IsDefault s = first-IsDefault s s.new_aws_secrets_manager_provider refl
