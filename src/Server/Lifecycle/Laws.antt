-- ===== src/Server/Lifecycle/Laws.antt =====
-- engine/console/ConsoleServer.cpp: what `Start`, `Stop` and the threads hold on to.
use voxhammer.Server.Lifecycle.Starting.{IsServing, IsClosed}
use voxhammer.Server.Lifecycle.{Config, Host, Life, start, accept_round, rotate_cert, stop}
use voxhammer.Base.{false, true, ◌≡◌, Bool}

module _ (host : Host) where
  -- The steps of the server. `Start` does not test whether the server runs: the flag says that its
  -- callers do, as `main` does, which calls it once. A start over a thread that runs would end the
  -- program; here it goes on.
  pub data Step (only_idle : Bool) : Life → Life → Type 0 where
    started :
        (cfg : Config) (s : Life)
        → (only_idle ≡ true → s.running ≡ false)
        → Step only_idle s (start host cfg s).0
    stopped : (s : Life) → Step only_idle s (stop s)
    accepting : (accepted : Bool) (s : Life) → Step only_idle s (accept_round host accepted s).0
    rotated : (s : Life) → Step only_idle s (rotate_cert host s)

  pub data Reachable (only_idle : Bool) : Life → Life → Type 0 where
    here : (s : Life) → Reachable only_idle s s
    after : (s t u : Life) → Reachable only_idle s t → Step only_idle t u → Reachable only_idle s u

  -- What holds of a server: if it does not run, nothing is open; and if it is only started where it
  -- does not run, it serves while it runs.
  abbrev pub Holds : Bool → Life → Type 0
  Holds only_idle s =
      (s.running ≡ false → IsClosed s) × (only_idle ≡ true → s.running ≡ true → IsServing s)
