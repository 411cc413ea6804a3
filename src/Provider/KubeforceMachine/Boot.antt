-- ===== src/Provider/KubeforceMachine/Boot.antt =====
-- cluster-api-provider-kubeforce/controllers/kubeforcemachine_controller.go: the playbook that boots
-- a machine, the addresses of the API servers, and the identifier of the node.
use kubeforce.Base.{
  String, Bool, true, false, ◌&&◌, Option, none, some, List, [], ◌∷◌, ◌++◌, StringMap, lookup,
  sort_stable, str_eq, str_append, if◌then◌else◌,
}
use kubeforce.Api.{failure, ObjectMeta}
use kubeforce.Provider.Types.{
  Answer, ok, failed, Agent, SystemInfo, RemotePlaybook, KubeforceCluster, group_version,
}
use kubeforce.Provider.Call.{◌>>=◌, ◌>>◌, give, lift, change, emit, demand}
use kubeforce.Provider.Template.{create_labels, only_one}
use kubeforce.Provider.Template.Create.{add_variables, new_status}
use kubeforce.Provider.KubeforceMachine.{
  Value, KubeforceMachine, PlaybookData, created_playbook, patched_node, Env, Config, is_some,
}
use kubeforce.Provider.KubeforceMachine.Cleanup.{Task, control_object, mark_true, mark_false}

unfoldable pub find_playbook_by_role :
    Env → String → KubeforceMachine → String → Answer (Option RemotePlaybook)
find_playbook_by_role env name m role =
    only_one env.template "Playbook" role
      (env.list_boot (create_labels env.template (control_object name m) role))

abbrev pub boot_meta : Env → String → KubeforceMachine → String → ObjectMeta
boot_meta env name m role = record {
  name =
      env.template.generate_name
        (str_append m.metadata.name (str_append "-" (str_append role "-")));
  generate_name = "";
  namespace = m.metadata.namespace;
  uid = "";
  labels = create_labels env.template (control_object name m) role;
  annotations = [];
  generation = 0;
  creation_timestamp = 0;
  deletion_timestamp = 0;
  finalizers = [];
  owner_references =
      record {
        api_version = group_version;
        kind = "KubeforceMachine";
        name = m.metadata.name;
        uid = m.metadata.uid;
        controller = true;
        block_owner_deletion = true;
      }
      ∷ [];
}

unfoldable pub boot_playbook :
    Env
    → String
    → KubeforceMachine
    → Agent
    → PlaybookData
    → String
    → Option (StringMap String)
    → RemotePlaybook
boot_playbook env name m a data_of role files = record {
  kind = "";
  api_version = "";
  metadata = boot_meta env name m role;
  agent_ref = a.metadata.name;
  spec = record { files = files; entrypoint = data_of.entrypoint };
  status = new_status;
}

-- The files of the new playbook, under `len(vars) > 0`.
abbrev pub boot_files :
    Env → String → StringMap Value → Option (StringMap String) → Answer (Option (StringMap String))
boot_files env what [] files = ok files
boot_files env what (v ∷ vars) files = add_variables env.template what (v ∷ vars) files

unfoldable pub create_playbook :
    Env → String → Agent → PlaybookData → String → StringMap Value → Task RemotePlaybook
create_playbook env name a data_of role vars m =
    (do
      let what = str_append "Playbook " (boot_meta env name m role).name
      files ← lift (boot_files env what vars data_of.files)
      emit (created_playbook (boot_playbook env name m a data_of role files))
      lift (env.create_boot (boot_playbook env name m a data_of role files)))
      m

abbrev booting : Env → RemotePlaybook → Task Bool
booting env pb = do
  mark_false env "BootstrapExecSucceeded" "Bootstrapping" "Warning" pb.status.external_phase
  give false

abbrev pub has_booted : Env → RemotePlaybook → Bool
has_booted env pb =
    env.conds.is_true pb.status.conditions "Synced" && str_eq pb.status.external_phase "Succeeded"

unfoldable pub boot_new : Env → Config → String → Agent → StringMap Value → Task Bool
boot_new env config name a vars = do
  contents ← lift config.bootstrap_data
  kubeadm ← lift config.kubeadm_config
  data_of ← lift (env.to_playbook kubeadm contents)
  pb ← create_playbook env name a data_of "boot" vars
  booting env pb

abbrev pub boot_found :
    Env → Config → String → Agent → StringMap Value → Option RemotePlaybook → Task Bool
boot_found env config name a vars (some pb) =
    if has_booted env pb
    then mark_true env "BootstrapExecSucceeded" >> give true
    else booting env pb
boot_found env config name a vars none = boot_new env config name a vars

unfoldable pub reconcile_cloud_init_playbook :
    Env → Config → String → Agent → StringMap Value → Task Bool
reconcile_cloud_init_playbook env config name a vars m =
    (do pb ← lift (find_playbook_by_role env name m "boot"); boot_found env config name a vars pb) m

-- The slice of a nil field is empty.
abbrev pub servers_of : Option (List String) → List String
servers_of none = []
servers_of (some servers) = servers

abbrev pub has_server : String → List String → Bool
has_server s [] = false
has_server s (t ∷ servers) = if str_eq t s then true else has_server s servers

abbrev pub is_control_plane : KubeforceMachine → Bool
is_control_plane m = is_some (lookup "cluster.x-k8s.io/control-plane" m.metadata.labels)

unfoldable pub get_api_server_endpoints : Env → KubeforceMachine → KubeforceCluster → List String
get_api_server_endpoints env m kfc =
    let servers = servers_of kfc.status.api_servers in
    if is_control_plane m
    then (if has_server m.status.default_ip_address servers
        then servers
        else sort_stable env.text_less (servers ++ (m.status.default_ip_address ∷ [])))
    else servers

abbrev pub provider_id : String → String
provider_id name = str_append "kf://" name

abbrev pub set_provider_id : String → KubeforceMachine → KubeforceMachine
set_provider_id id m = record m { spec = record m.spec { provider_id = some id } }

abbrev pub hostname_of : Option SystemInfo → Answer String
hostname_of none = failed (failure "hostname is empty")
hostname_of (some s) =
    if str_eq s.hostname "" then failed (failure "hostname is empty") else ok s.hostname

abbrev pub node_identified : Env → String → String → String → Task (Unit {0})
node_identified env name hostname id =
    if str_eq id ""
    then (do
      emit (patched_node hostname (provider_id name))
      demand (env.patch_node hostname (provider_id name)) (λ e. e)
      change (set_provider_id (provider_id name)))
    else change (set_provider_id id)

abbrev pub identify : Env → String → Agent → Option String → Task (Unit {0})
identify env name a (some id) = give tt
identify env name a none = do
  hostname ← lift (hostname_of a.status.system_info)
  demand env.node_client (λ e. e)
  id ← lift (env.get_node hostname)
  node_identified env name hostname id

unfoldable pub reconcile_node_provider_id : Env → String → Agent → Task (Unit {0})
reconcile_node_provider_id env name a m = identify env name a m.spec.provider_id m
