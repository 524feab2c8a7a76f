-- ===== src/Main.antt =====
-- cmd/controller/main.go. The flags are those that flag.Parse left; what controller-runtime answers is a
-- parameter; logging is left out, but for the message of a failure.
pub mod Serves
use jasm.Base.{
  Bool, false, List, [], ◌∷◌, ◌++◌, Option, none, some, Result, ok, err, Go, ret, fail, panic,
}
use jasm.Text.{Bytes, codes}
use jasm.Errors.{Error}
use jasm.Registry.{ProviderRegistry, Setup, Started, default_provider_registry}

-- The variables that the flags set.
pub record Flags : Type 0 where
  pub metrics_addr : Bytes
  pub probe_addr : Bytes
  pub enable_leader_election : Bool

-- The flags of a command line without any.
abbrev pub default_flags : Flags
default_flags = record {
  metrics_addr = codes ":8080";
  probe_addr = codes ":8081";
  enable_leader_election = false;
}

-- ctrl.Options
pub record Options : Type 0 where
  pub bind_address : Bytes
  pub health_probe_bind_address : Bytes
  pub leader_election : Bool
  pub leader_election_id : Bytes

-- ctrl.Manager: the errors of SetupWithManager with a registry, of AddHealthzCheck and AddReadyzCheck under
-- a name, and of Start once it ends.
pub record Manager : Type 0 where
  pub setup_with_manager : ProviderRegistry → Option Error
  pub add_healthz_check : Bytes → Option Error
  pub add_readyz_check : Bytes → Option Error
  pub start : Option Error

-- What main has done.
pub data Did : Type 0 where
  set_up : ProviderRegistry → Did
  healthz : Bytes → Did
  readyz : Bytes → Did
  started : Did

-- How main ends: by setupLog.Error(err, message) and os.Exit(1), by its return, or by a panic.
pub data Exit : Type 0 where
  exit_one : Bytes → Error → Exit
  returned : Exit
  crashed : Exit

pub record Ended : Type 0 where
  pub did : List Did
  pub exit : Exit

-- ctrl.Options{…}
unfoldable pub manager_options : Flags → Options
manager_options flags = record {
  bind_address = flags.metrics_addr;
  health_probe_bind_address = flags.probe_addr;
  leader_election = flags.enable_leader_election;
  leader_election_id = codes "jasm.io";
}

-- mgr.Start
abbrev pub run : List Did → Option Error → Ended
run before none = record { did = before ++ started ∷ []; exit = returned }
run before (some e) = record {
  did = before ++ started ∷ [];
  exit = exit_one (codes "problem running manager") e;
}

-- One call that makes main exit where it fails.
abbrev pub attempt : Bytes → Did → Option Error → (List Did → Ended) → List Did → Ended
attempt text step (some e) rest before = record { did = before; exit = exit_one text e }
attempt text step none rest before = rest (before ++ step ∷ [])

unfoldable pub with_registry : Manager → Go Error Started → Ended
with_registry manager panic = record { did = []; exit = crashed }
with_registry manager (fail e) = record {
  did = [];
  exit = exit_one (codes "unable to initialize provider registry") e;
}
with_registry manager (ret t) =
    attempt (codes "unable to create controller") (set_up t.registry)
      (manager.setup_with_manager t.registry)
      (attempt (codes "unable to set up health check") (healthz (codes "healthz"))
        (manager.add_healthz_check (codes "healthz"))
        (attempt (codes "unable to set up ready check") (readyz (codes "readyz"))
          (manager.add_readyz_check (codes "readyz")) (λ before. run before manager.start)))
      []

unfoldable pub with_manager : Setup → Result Error Manager → Ended
unfolding with_registry
with_manager s (err e) = record { did = []; exit = exit_one (codes "unable to create manager") e }
with_manager s (ok manager) = with_registry manager (default_provider_registry s)

-- main
unfoldable pub main : Setup → (Options → Result Error Manager) → Flags → Ended
unfolding with_manager manager_options
main s new_manager flags = with_manager s (new_manager (manager_options flags))
