-- ===== src/Provider/KubeforceAgent/Secrets.antt =====
-- cluster-api-provider-kubeforce/controllers/kubeforceagent_controller.go: the secrets that the
-- agent uses, which are kept in step with the issued ones.
use kubeforce.Base.{
  String, Bool, true, false, ◌&&◌, none, some, List, [], ◌∷◌, lookup, merge, str_append,
  if◌then◌else◌,
}
use kubeforce.Api.{Error, is_not_found}
use kubeforce.Provider.Types.{Answer, ok, failed, panicked, has_changes, Agent}
use kubeforce.Provider.Call.{Call, ◌>>=◌, ◌>>◌, give, lift, emit, demand, wrapped}
use kubeforce.Provider.Playbook.{agent_ref}
use kubeforce.Provider.KubeforceAgent.{
  World, Secret, Key, key_text, object_key, Effect, uploaded, created_secret, patched_secret,
  deleted_holder, Round, connected, Env, issued_key, active_key, get_agent_tls_object_key,
  get_agent_client_cert_object_key,
}

abbrev pub Io : Type 0 → Type 0
Io A = Call World Effect A

-- A nil map is made first, so it is written to like an empty one.
abbrev pub copy_secret_fields : Secret → Secret → Secret
copy_secret_fields dst src = record {
  metadata = record dst.metadata {
    labels = merge src.metadata.labels dst.metadata.labels;
    owner_references = src.metadata.owner_references;
  };
  contents = merge src.contents dst.contents;
}

abbrev pub new_secret : Secret
new_secret = record {
  metadata = record {
    name = "";
    generate_name = "";
    namespace = "";
    uid = "";
    labels = [];
    annotations = [];
    generation = 0;
    creation_timestamp = 0;
    deletion_timestamp = 0;
    finalizers = [];
    owner_references = [];
  };
  contents = [];
}

-- Where the two functions differ: the names, the owners, and the files on the host with the keys of
-- their contents.
pub record SecretSync : Type 0 where
  pub issued_name : Answer Key
  pub active_name : Answer Key
  pub set_owners : Secret → Secret
  pub files : List (String × String × String)

abbrev pub failed_to_get : Env → Key → Error → Error
failed_to_get env key e = env.wrapf (str_append "failed to get tls secret " (key_text key)) e

-- The active secret, and whether it must be created.
abbrev pub found_or_new : Env → Key → Answer Secret → Answer (Secret × Bool)
found_or_new env key (ok s) = ok (s, false)
found_or_new env key (failed e) =
    if is_not_found e then ok (new_secret, true) else failed (failed_to_get env key e)
found_or_new env key panicked = panicked

abbrev pub content_of : String → Secret → String
content_of k s = elim (lookup k s.contents) [ none ↦ "" | some c ↦ c ]

unfoldable pub upload_files : Env → Secret → List (String × String × String) → Io (Unit {0})
upload_files env s [] = give tt
upload_files env s ((path, k, message) ∷ files) =
    let rest = upload_files env s files in
    emit (uploaded path (content_of k s))
    >> demand (env.upload path (content_of k s)) (env.wrapf message)
    >> rest

abbrev pub upload : Env → Agent → Secret → List (String × String × String) → Io (Unit {0})
upload env a s files = do
  demand (env.client_set (object_key a.metadata)) (λ e. e)
  upload_files env s files

abbrev pub named : Key → Secret → Secret
named (namespace, name) s = record s {
  metadata = record s.metadata { name = name; namespace = namespace };
}

-- The write of the active secret; the client of the agent is dropped where it changed.
abbrev pub write_secret : Env → Round → Agent → Key → Secret → Bool → Bool → Io Bool
write_secret env r a key s true changed = do
  emit (created_secret (named key s))
  demand (env.create_secret r (named key s))
      (env.wrapf (str_append "unable to create tls secret " (key_text key)))
  emit (deleted_holder (object_key a.metadata))
  give true
write_secret env r a key s false false = give false
write_secret env r a key s false true = do
  emit (patched_secret s)
  demand (env.patch_secret r s) (env.wrapf (str_append "failed to patch Secret " (key_text key)))
  emit (deleted_holder (object_key a.metadata))
  give true

-- The files are uploaded once the agent is connected.
abbrev pub needs_upload : Round → Bool
needs_upload connected = true
needs_upload _ = false

abbrev pub upload_changed : Env → Round → Agent → Secret → SecretSync → Bool → Io (Unit {0})
upload_changed env r a s k changed =
    if changed && needs_upload r then upload env a s k.files else give tt

unfoldable pub refresh : Env → Round → Agent → SecretSync → Key → Secret → Bool → Secret → Io Bool
refresh env r a k key active need_create new = do
  changed ← lift (has_changes env.patch_data env.unmarshal env.wrapf active new)
  upload_changed env r a new k changed
  write_secret env r a key new need_create changed

unfoldable pub sync_secret : Env → Round → Agent → SecretSync → Io Bool
sync_secret env r a k = do
  issued_name ← lift k.issued_name
  issued ← lift (wrapped (failed_to_get env issued_name) (env.get_secret r issued_name))
  active_name ← lift k.active_name
  (active, need_create) ← lift (found_or_new env active_name (env.get_secret r active_name))
  refresh env r a k active_name active need_create (k.set_owners (copy_secret_fields active issued))

abbrev pub tls_sync : Env → Agent → SecretSync
tls_sync env a = record {
  issued_name = get_agent_tls_object_key env.bytes a issued_key;
  active_name = get_agent_tls_object_key env.bytes a active_key;
  set_owners = λ s. s;
  files =
      ("/etc/kubeforce/certs/tls.crt", "tls.crt", "unable to upload the tls certificate")
      ∷ ("/etc/kubeforce/certs/tls.key", "tls.key", "unable to upload the tls private key")
      ∷ [];
}

abbrev pub owned_by : Agent → Secret → Secret
owned_by a s = record s { metadata = record s.metadata { owner_references = agent_ref a ∷ [] } }

abbrev pub client_sync : Env → Agent → SecretSync
client_sync env a = record {
  issued_name = get_agent_client_cert_object_key env.bytes a issued_key;
  active_name = get_agent_client_cert_object_key env.bytes a active_key;
  set_owners = owned_by a;
  files =
      ("/etc/kubeforce/certs/client-ca.crt", "ca.crt", "unable to upload the tls certificate") ∷ [];
}

unfoldable pub sync_agent_tls_secret : Env → Round → Agent → Io Bool
sync_agent_tls_secret env r a = sync_secret env r a (tls_sync env a)

unfoldable pub sync_agent_client_secret : Env → Round → Agent → Io Bool
sync_agent_client_secret env r a = sync_secret env r a (client_sync env a)
