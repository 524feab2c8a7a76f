-- ===== src/Main/Serves.antt =====
-- When the controller of cmd/controller/main.go comes to serve.
use jasm.Base.{
  Go, ret, fail, panic, ◌≡◌, refl, List, [], ◌∷◌, Option, none, some, Result, ok, err, ◌⊎◌, inl,
  inr,
}
use jasm.Text.{codes}
use jasm.Errors.{Error}
use jasm.Registry.{Setup, Started, default_provider_registry}
use jasm.Registry.Default.{IsDefault, default_provider_registry-IsDefault}
use jasm.Main.{
  Flags, Options, Manager, Did, set_up, healthz, readyz, started, Exit, exit_one, returned, crashed,
  Ended, manager_options, run, attempt, with_registry, with_manager, main,
}

-- The manager ran: with a controller over the default registry, and both checks.
pub record IsServing (s : Setup) (made : Result Error Manager) (end : Ended) : Type 0 where
  pub manager : Manager
  pub start : Started
  pub managed : made ≡ ok manager
  pub built : default_provider_registry s ≡ ret start
  pub registry : IsDefault s (ret start)
  pub did :
      end.did
      ≡ set_up start.registry ∷ healthz (codes "healthz") ∷ readyz (codes "readyz") ∷ started ∷ []
  pub ended :
      ((manager.start ≡ none) × (end.exit ≡ returned))
      ⊎ ((e : Error) × ((manager.start ≡ some e)
            × (end.exit ≡ exit_one (codes "problem running manager") e)))

-- Which call failed, for which the manager did not run.
pub data Cause (s : Setup) (made : Result Error Manager) : List Did → Exit → Type 0 where
  no_manager :
      (e : Error) → made ≡ err e → Cause s made [] (exit_one (codes "unable to create manager") e)
  no_registry :
      (manager : Manager) (e : Error)
      → made ≡ ok manager
      → default_provider_registry s ≡ fail e
      → IsDefault s (fail e)
      → Cause s made [] (exit_one (codes "unable to initialize provider registry") e)
  no_return :
      (manager : Manager)
      → made ≡ ok manager
      → default_provider_registry s ≡ panic
      → IsDefault s panic
      → Cause s made [] crashed
  no_controller :
      (manager : Manager) (t : Started) (e : Error)
      → made ≡ ok manager
      → default_provider_registry s ≡ ret t
      → manager.setup_with_manager t.registry ≡ some e
      → Cause s made [] (exit_one (codes "unable to create controller") e)
  no_health :
      (manager : Manager) (t : Started) (e : Error)
      → made ≡ ok manager
      → default_provider_registry s ≡ ret t
      → manager.add_healthz_check (codes "healthz") ≡ some e
      → Cause s made (set_up t.registry ∷ []) (exit_one (codes "unable to set up health check") e)
  no_ready :
      (manager : Manager) (t : Started) (e : Error)
      → made ≡ ok manager
      → default_provider_registry s ≡ ret t
      → manager.add_readyz_check (codes "readyz") ≡ some e
      → Cause s made
          (set_up t.registry ∷ healthz (codes "healthz") ∷ [])
          (exit_one (codes "unable to set up ready check") e)

-- The manager runs, or one call failed before it.
abbrev pub Ends : Setup → Result Error Manager → Ended → Type 0
Ends s made end = IsServing s made end ⊎ Cause s made end.did end.exit

module _ (s : Setup) (made : Result Error Manager) (manager : Manager) (t : Started)
    (managed : made ≡ ok manager) (built : default_provider_registry s ≡ ret t)
    (registry : IsDefault s (ret t)) where
  run-IsServing :
      (o : Option Error)
      → manager.start ≡ o
      → IsServing s made
          (run (set_up t.registry ∷ healthz (codes "healthz") ∷ readyz (codes "readyz") ∷ []) o)
  run-IsServing none h = record {
    manager = manager;
    start = t;
    managed = managed;
    built = built;
    registry = registry;
    did = refl;
    ended = inl (h, refl);
  }
  run-IsServing (some e) h = record {
    manager = manager;
    start = t;
    managed = managed;
    built = built;
    registry = registry;
    did = refl;
    ended = inr (e, (h, refl));
  }

  -- What the three calls lead to, as they answer.
  abbrev calls : Option Error → Option Error → Option Error → Ended
  calls o p q =
      attempt (codes "unable to create controller") (set_up t.registry) o
        (attempt (codes "unable to set up health check") (healthz (codes "healthz")) p (
          attempt (codes "unable to set up ready check") (readyz (codes "readyz")) q
            (λ before. run before manager.start)))
        []

  calls-Ends :
      (o p q : Option Error)
      → manager.setup_with_manager t.registry ≡ o
      → manager.add_healthz_check (codes "healthz") ≡ p
      → manager.add_readyz_check (codes "readyz") ≡ q
      → Ends s made (calls o p q)
  calls-Ends (some e) p q ho hp hq = inr (no_controller manager t e managed built ho)
  calls-Ends none (some e) q ho hp hq = inr (no_health manager t e managed built hp)
  calls-Ends none none (some e) ho hp hq = inr (no_ready manager t e managed built hq)
  calls-Ends none none none ho hp hq = inl (run-IsServing manager.start refl)

with_registry-Ends :
    (s : Setup) (made : Result Error Manager) (manager : Manager) (r : Go Error Started)
    → made ≡ ok manager
    → default_provider_registry s ≡ r
    → IsDefault s r
    → Ends s made (with_registry manager r)
unfolding with_registry
with_registry-Ends s made manager (fail e) managed built d =
    inr (no_registry manager e managed built d)
with_registry-Ends s made manager panic managed built d = inr (no_return manager managed built d)
with_registry-Ends s made manager (ret t) managed built d =
    calls-Ends s made manager t managed built d (manager.setup_with_manager t.registry)
      (manager.add_healthz_check (codes "healthz")) (manager.add_readyz_check (codes "readyz")) refl
      refl refl

with_manager-Ends :
    (s : Setup) (made r : Result Error Manager) → made ≡ r → Ends s made (with_manager s r)
unfolding with_manager
with_manager-Ends s made (err e) h = inr (no_manager e h)
with_manager-Ends s made (ok manager) h =
    with_registry-Ends s made manager (default_provider_registry s) h refl
      (default_provider_registry-IsDefault s)

-- main makes a manager with the addresses and the leader election of its flags, and either runs it, after it
-- has set up a controller over the default registry, which holds each configured provider under its name,
-- and added the checks healthz and readyz, in this order; or one of the calls before that failed, and the
-- process exits with the status 1, the message of this call and its error, with what came before it done;
-- or NewBitwardenProvider panicked, and so does main. Where the manager ran, main returns once it ends
-- without an error, and exits with the status 1 otherwise.
pub main_serves :
    (s : Setup) (new_manager : Options → Result Error Manager) (flags : Flags)
    → Ends s
        (new_manager (record {
          bind_address = flags.metrics_addr;
          health_probe_bind_address = flags.probe_addr;
          leader_election = flags.enable_leader_election;
          leader_election_id = codes "jasm.io";
        }))
        (main s new_manager flags)
unfolding main manager_options
main_serves s new_manager flags =
    with_manager-Ends s (new_manager (manager_options flags)) (new_manager (manager_options flags))
      refl
