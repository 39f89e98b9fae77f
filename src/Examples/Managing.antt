-- ===== src/Examples/Managing.antt =====
-- The theorems on the sessions of native/src/sessions.rs, applied.
use repl_mcp.Artifacts.State
use repl_mcp.Sessions.Sound.{Op, steps, step, installs, releases}
use repl_mcp.Sessions.Prepare.{project_venv, explicit, not_found}
use repl_mcp.Sessions.Lifecycle.{closed_final}
use repl_mcp.Sessions.{SessionManager, start, install, share_broker, get_session, detach, Session}
use repl_mcp.Base.{List, some, ◌∷◌, [], length, ◌≤◌, ◌≡◌, ◌↔◌, err, refl}
use repl_mcp.Artifacts.Registry.{register_owner}
use repl_mcp.Sessions.Sharing.{brokers_by_project}

abbrev two_projects : List Op
two_projects =
    installs "b" "second" (record { project = "/q"; selected = "/q/python"; source = project_venv })
    ∷ installs "c" "third" (record { project = "/p"; selected = "/bin/python"; source = explicit })
    ∷ []

abbrev managed : SessionManager
managed = steps two_projects (start "a" "/p" "python")

abbrev first : Session
first = record { project = "/p"; name = "default"; python = "python"; broker = 0 }

abbrev third : Session
third = record { project = "/p"; name = "third"; python = "/bin/python"; broker = 0 }

brokers_by_project_example :
    (length managed.sessions ≤ 32)
    × ((first.broker ≡ third.broker) ↔ (first.project ≡ third.project))
unfolding steps step start install share_broker register_owner get_session State.new
brokers_by_project_example =
    brokers_by_project "a" "/p" "python" two_projects "a" "c" first third (refl, (refl, tt)) refl
      refl

closed_final_example :
    get_session (some "b") (steps (releases ∷ []) (detach "b" managed).1) ≡ err not_found
unfolding steps step start install share_broker register_owner detach State.new
closed_final_example = closed_final "b" managed (some 1) (releases ∷ []) refl (refl, tt)
