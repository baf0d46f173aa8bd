-- ===== src/Process/Servers.antt =====
-- The hooks of the activator and of the mock sandbox around their HTTP servers
-- (activator/internal/transport/http.go; mock-sandbox/internal/server/server.go, `Start`;
-- mock-sandbox/cmd/sandbox/main.go).
use k8s_sched_demo.Errors.{Error}
use k8s_sched_demo.Process.App.{IsOrderly, Fx}
use k8s_sched_demo.Process.{end_of, address, returned, Hook}
use k8s_sched_demo.MockSandbox.{Server}
use k8s_sched_demo.Activator.Server.{Config}
use k8s_sched_demo.Base.{refl, ap, ◌∙◌, [], ◌≡◌, ◌∷◌, some, none, List, Text, Option}

-- The address that a server of net/http serves, while it does.
pub record Serving : Type 0 where
  pub addr : Option Text

-- `registerHooks` of the activator; `down` is what Shutdown returns.
unfoldable pub activator_hook : Config → Option Error → Hook Serving
activator_hook cfg down = record {
  on_start = λ s. returned none (record { addr = some (address ":" cfg.server_port) });
  on_stop = λ s. returned down (record { addr = none });
}

-- `Start` of the mock sandbox's server.
unfoldable pub sandbox_hook : Server → Option Error → Hook Serving
sandbox_hook server down = record {
  on_start = λ s. returned none (record { addr = some server.addr });
  on_stop = λ s. returned down (record { addr = none });
}

-- The hook of `main` of the mock sandbox only logs.
abbrev pub logging_hook : Hook Serving
logging_hook = record { on_start = λ s. returned none s; on_stop = λ s. returned none s }

-- `main` of the mock sandbox up to the signal, and what it does then.
unfoldable pub sandbox_hooks : Server → Option Error → List (Hook Serving)
unfolding sandbox_hook
sandbox_hooks server down = sandbox_hook server down ∷ logging_hook ∷ []

module _ (fx : Fx Serving) (orderly : IsOrderly fx) where
  -- The mock sandbox serves its address from its start on, and no more once it was stopped,
  -- whatever Shutdown returns.
  pub sandbox-serves :
      (server : Server) (down : Option Error) (s : Serving)
      → let up : Serving = record { addr = some server.addr } in
        (fx.start (sandbox_hooks server down) s ≡ returned none up)
        × (end_of (fx.stop (sandbox_hooks server down) up) ≡ some (record { addr = none }))
  unfolding sandbox_hooks
  sandbox-serves server down s =
      let up : Serving = record { addr = some server.addr } in
      (
        orderly.start_first (sandbox_hook server down) (logging_hook ∷ []) s up refl
            ∙ (orderly.start_first logging_hook [] up up refl ∙ orderly.start_none up),
        orderly.stop_first (sandbox_hook server down) (logging_hook ∷ []) up up
            (orderly.stop_first logging_hook [] up up (ap end_of (orderly.stop_none up))),
      )
