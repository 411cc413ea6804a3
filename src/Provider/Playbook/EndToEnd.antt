-- ===== src/Provider/Playbook/EndToEnd.antt =====
-- The Playbook of the management cluster and the one that the agent runs
-- (cluster-api-provider-kubeforce/controllers/playbook_controller.go with
-- agent/pkg/controllers/playbook.go).
use mathlib.Core.Path.{subst}
use kubeforce.Base.{◌≡◌, ap, sym, ◌∙◌, true, false, List, [], ◌∷◌}
use kubeforce.Agent.Run
use kubeforce.Agent.Playbook.Progress.{syncs}
use kubeforce.Agent.Playbook.Ran.{HasUnique, has_executed, Ran, syncs-Ran, syncs-HasUnique}
use kubeforce.Provider.Types.{RemotePlaybook, ok}
use kubeforce.Provider.Playbook.{Env, ExternalPlaybook, external_labels}
use kubeforce.Provider.Playbook.Sync.{reconcile_normal}
use kubeforce.Provider.Playbook.Completion.{ListsUnique, executed, reconcile_normal-executed}

listed_one :
    (env : Env) (pb : RemotePlaybook) (x y : ExternalPlaybook)
    → env.list_external (external_labels pb) ≡ ok (x ∷ [])
    → env.list_external (external_labels pb) ≡ ok (y ∷ [])
    → y ≡ x
listed_one env pb x y l m = cc

-- If the agent has the external playbook after any sequence of its reconciliations of a Playbook
-- whose conditions have distinct types and whose condition Execution was not true, then the
-- controller of the management cluster makes the condition Execution of its own Playbook true only if
-- one of them ran the playbook in phase Running and the run returned nil. A status patch that is
-- refused leaves the Playbook of the agent as it was.
pub reconcile_normal-Ran :
    (env : Env) (pb : RemotePlaybook) (agent_envs : List Run.Env) (x : ExternalPlaybook)
    → HasUnique x
    → has_executed x ≡ false
    → env.list_external (external_labels pb) ≡ ok (syncs agent_envs x ∷ [])
    → executed env pb ≡ false
    → executed env (reconcile_normal env pb).1 ≡ true
    → Ran agent_envs x
reconcile_normal-Ran env pb agent_envs x u f l g h =
    let unique : ListsUnique env pb = λ y m.
      subst HasUnique (sym (listed_one env pb (syncs agent_envs x) y l m))
        (syncs-HasUnique agent_envs x u) in
    let (ext, m, t) = reconcile_normal-executed env pb unique g h in
    let same = listed_one env pb (syncs agent_envs x) ext l m in
    syncs-Ran agent_envs x f (ap has_executed (sym same) ∙ t)
