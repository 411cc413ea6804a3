-- ===== src/Provider/KubeforceAgent/Install.antt =====
-- cluster-api-provider-kubeforce/controllers/kubeforceagent_controller.go: the
-- certificate, the installation and the information of an agent.
use kubeforce.Base.{
  ◌==◌, String, Bool, true, false, not, ◌&&◌, Option, none, some, [], ◌∷◌, str_eq, str_append,
  if◌then◌else◌,
}
use kubeforce.Api.{Error, is_not_found, text}
use kubeforce.Provider.Types.{Answer, ok, failed, panicked, SystemInfo, Agent, group_version}
use kubeforce.Provider.Handler.{return, fail, crash, on_error, ◌>>=◌, ◌>>◌, tell, when, check}
use kubeforce.Provider.Call.{run}
use kubeforce.Provider.Remote.{is_healthy}
use kubeforce.Provider.Playbook.{agent_ref}
use kubeforce.Provider.Playbook.Delete.{seconds}
use kubeforce.Provider.KubeforceAgent.{
  Secret, Key, key_text, object_key, Certificate, patched_secret, installed, certifying, installing,
  Env, with_status, issued_key, get_agent_tls_object_key,
}
use kubeforce.Provider.KubeforceAgent.Secrets.{sync_agent_tls_secret, sync_agent_client_secret}
use kubeforce.Provider.KubeforceAgent.Request.{create_agent_serv_certificate}
use kubeforce.Provider.KubeforceAgent.Delete.{Action, modify_agent, mark_true, mark_false}

-- A result that is zero, without an error, lets the caller go on: it is `pure`.
abbrev pub certificate_error : Env → Error → Action (Unit {0})
certificate_error env e = do
  mark_false env "AgentTLS" "WaitingForCertIssue" "Error" (text e)
  fail e

abbrev pub is_ready : Certificate → Bool
is_ready c = elim c.ready [
  | none ↦ false
  | some (status, observed) ↦ status && (observed == c.generation)
]

abbrev pub should_adopt : Env → Secret → Bool
should_adopt env s =
    not (env.has_owner s.metadata.owner_references group_version ("KubeforceAgent" ∷ []))

abbrev pub adopt : Env → Agent → Secret → Secret
adopt env a s = record s {
  metadata = record s.metadata {
    owner_references = env.ensure_owner_ref s.metadata.owner_references (agent_ref a);
  };
}

abbrev pub adopt_secret : Env → Agent → Key → Secret → Action (Unit {0})
adopt_secret env a key s = do
  tell (patched_secret (adopt env a s))
  check (env.patch_secret certifying (adopt env a s))
      (λ e. fail (env.wrapf (str_append "failed to patch secret " (key_text key)) e))

unfoldable pub on_certificate : Env → Agent → Key → Answer Certificate → Action (Unit {0})
on_certificate env a key panicked = crash
on_certificate env a key (failed e) =
    if is_not_found e
    then run (create_agent_serv_certificate env a key) (certificate_error env)
    else certificate_error env e
on_certificate env a key (ok c) =
    if is_ready c
    then (do
      s ←
          on_error (env.get_secret certifying key)
            (λ e. fail (env.wrapf (str_append "failed to get tls secret " key.1) e))
      when (should_adopt env s) (adopt_secret env a key s)
      mark_true env "AgentTLS")
    else mark_false env "AgentTLS" "WaitingForCertIssue" "Info" ""

unfoldable pub reconcile_tls_cert : Env → Agent → Action (Unit {0})
reconcile_tls_cert env a = do
  when (str_eq a.spec.cert_template.issuer_ref.name "") (do
    mark_false env "AgentTLS" "WaitingForCertIssuerRef" "Error"
        "Waiting for the certification issuer reference to be specified"
    return (seconds 30) none)
  key ← on_error (get_agent_tls_object_key env.bytes a issued_key) fail
  on_certificate env a key (env.get_certificate key)

abbrev pub set_info : Option String → Agent → Agent
set_info i a = with_status (λ s. record s { agent_info = i }) a

abbrev pub set_system : Option SystemInfo → Agent → Agent
set_system i a = with_status (λ s. record s { system_info = i }) a

abbrev pub set_failure : String → String → Agent → Agent
set_failure reason message a =
    with_status (λ s. record s { failure_reason = reason; failure_message = message }) a

abbrev pub not_installed : {A : Type 0} → Env → Error → Action A
not_installed env e = do
  mark_false env "AgentInstalled" "AgentInstallingFailed" "Info" (text e)
  fail e

abbrev pub set_installed : Agent → Agent
set_installed a = record a { spec = record a.spec { is_installed = true } }

abbrev pub clear_install_failure : Agent → Agent
clear_install_failure a =
    if str_eq a.status.failure_reason "InstallError" then set_failure "" "" a else a

abbrev pub after_install : Env → Option Error → Action (Unit {0})
after_install env (some e) = do
  modify_agent (set_failure "InstallError" (text e))
  mark_false env "AgentInstalled" "AgentInstallingFailed" "Error" (text e)
  return (seconds 20) none
after_install env none = do
  modify_agent set_installed
  modify_agent clear_install_failure
  mark_true env "AgentInstalled"

-- What follows once the secrets are in step.
unfoldable pub install_agent : Env → Action (Unit {0})
install_agent env = do
  check env.get_helper (not_installed env)
  check env.get_ssh_config (λ e. do
    mark_false env "AgentInstalled" "WaitingForSSHConfiguration" "Info" (text e)
    return (seconds 10) none)
  modify_agent (set_info none)
  tell installed
  after_install env env.install

unfoldable pub install_with_secrets : Env → Agent → Action (Unit {0})
install_with_secrets env a = do
  changed_tls ← run (sync_agent_tls_secret env installing a) (not_installed env)
  changed_ca ← run (sync_agent_client_secret env installing a) (not_installed env)
  install_agent env

unfoldable pub reconcile_agent_installation : Env → Agent → Action (Unit {0})
reconcile_agent_installation env a =
    if a.spec.is_installed
    then when (not (env.conds.is_true a.status.conditions "AgentInstalled"))
        (mark_true env "AgentInstalled")
    else (if str_eq a.spec.ssh.secret_name ""
        then mark_false env "AgentInstalled" "WaitingForSSHConfiguration" "Info" ""
        else install_with_secrets env a)

abbrev pub info_error : {A : Type 0} → Env → Error → Action A
info_error env e = do mark_false env "AgentInfo" "AgentInfoFailedReason" "Error" (text e); fail e

-- `reconcileAgentInfo`, whose errors `reconcileNormal` records.
abbrev pub ask_info : Env → Agent → Action (Unit {0})
ask_info env a = do
  check (env.client_set (object_key a.metadata)) (info_error env)
  v ← on_error env.server_version (info_error env)
  modify_agent (set_info (some v))
  s ← on_error env.sys_info (info_error env)
  modify_agent (set_system (some s))
  mark_true env "AgentInfo"

abbrev pub has_info : Option String → Option SystemInfo → Bool
has_info (some v) (some s) = true
has_info _ _ = false

unfoldable pub reconcile_agent_info : Env → Agent → Action (Unit {0})
reconcile_agent_info env a =
    if has_info a.status.agent_info a.status.system_info
    then mark_true env "AgentInfo"
    else (if is_healthy env.conds a
        then ask_info env a
        else mark_false env "AgentInfo" "WaitingForConnectionReadiness" "Info" "")
