-- ===== src/Provider/KubeforceAgent/Request.antt =====
-- The certificate that an agent asks for: `createAgentServCertificate` of
-- cluster-api-provider-kubeforce/controllers/kubeforceagent_controller.go, with `Filter` of
-- cluster-api-provider-kubeforce/pkg/util/strings/strings.go.
use kubeforce.Base.{String, Option, none, some, List, [], ◌∷◌, ◌++◌, str_eq, if◌then◌else◌}
use kubeforce.Provider.Types.{Answer, ok, panicked, Addresses, Agent}
use kubeforce.Provider.Call.{◌>>=◌, ◌>>◌, lift, emit, demand}
use kubeforce.Provider.Playbook.{agent_ref}
use kubeforce.Provider.KubeforceAgent.{Key, CertificateRequest, created_certificate, Env}
use kubeforce.Provider.KubeforceAgent.Secrets.{Io}

unfoldable pub filter_nonempty : List String → List String
filter_nonempty [] = []
filter_nonempty (s ∷ ss) = let rest = filter_nonempty ss in if str_eq s "" then rest else s ∷ rest

abbrev pub serv_certificate : Agent → Addresses → Key → CertificateRequest
serv_certificate a addresses key =
    let t = a.spec.cert_template in
    record {
      key = key;
      owner_references = agent_ref a ∷ [];
      common_name = key.1;
      duration = t.duration;
      renew_before = t.renew_before;
      dns_names =
          t.dns_names ++ filter_nonempty (addresses.external_dns ∷ addresses.internal_dns ∷ []);
      ip_addresses =
          t.ip_addresses ++ filter_nonempty (addresses.external_ip ∷ addresses.internal_ip ∷ []);
      secret_name = key.1;
      issuer_ref = t.issuer_ref;
      private_key = t.private_key;
    }

-- The addresses are optional: without them a name is read through a nil pointer.
abbrev pub present : {A : Type 0} → Option A → Answer A
present none = panicked
present (some a) = ok a

unfoldable pub create_agent_serv_certificate : Env → Agent → Key → Io (Unit {0})
create_agent_serv_certificate env a key = do
  addresses ← lift (present a.spec.addresses)
  emit (created_certificate (serv_certificate a addresses key))
  demand (env.create_certificate (serv_certificate a addresses key))
      (env.wrapf "unable to create certificate")
