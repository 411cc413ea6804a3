-- ===== src/Provider/KubeforceAgent/Uploads.antt =====
-- That the active secret follows the files on the host
-- (cluster-api-provider-kubeforce/controllers/kubeforceagent_controller.go).
use kubeforce.Base.{
  ◌≡◌, refl, ◌∙◌, String, Bool, true, false, not, ◌&&◌, ◌||◌, List, [], ◌∷◌, ◌++◌, arith,
  Bool-cases, Option-cases, inl, inr,
}
use kubeforce.Api.{is_nil}
use kubeforce.Provider.Types.{Answer, Answer-cases, ok, Agent, has_changes}
use kubeforce.Provider.Call.{◌>>◌}
use kubeforce.Provider.KubeforceAgent.{
  World, Secret, Key, Effect, deleted_machine, uninstalled, uploaded, created_secret,
  patched_secret, deleted_holder, created_certificate, installed, patched, Round, Env, object_key,
}
use kubeforce.Provider.KubeforceAgent.Secrets.{
  SecretSync, upload_files, content_of, refresh, write_secret, needs_upload, upload, upload_changed,
}

-- Whether a secret was sent to the API server.
abbrev pub writes : List Effect → Bool
writes [] = false
writes (created_secret s ∷ es) = true
writes (patched_secret s ∷ es) = true
writes (e ∷ es) = writes es

abbrev is_ok : {A : Type 0} → Answer A → Bool
is_ok (ok a) = true
is_ok _ = false

abbrev pub are_uploaded : Env → Secret → List (String × String × String) → Bool
are_uploaded env s [] = true
are_uploaded env s ((path, k, message) ∷ files) =
    let rest = are_uploaded env s files in is_nil (env.upload path (content_of k s)) && rest

upload_files-are_uploaded :
    (env : Env) (s : Secret) (files : List (String × String × String)) (w : World)
    → (is_ok (upload_files env s files w).0 ≡ are_uploaded env s files)
      × (writes (upload_files env s files w).2 ≡ false)
unfolding upload_files
upload_files-are_uploaded env s [] w = (refl, refl)
upload_files-are_uploaded env s ((path, k, message) ∷ files) w =
    elim (Option-cases (env.upload path (content_of k s))) [
      | inl u ↦ rw u (upload_files-are_uploaded env s files w)
      | inr (e, u) ↦ rw u (refl, refl)
    ]

-- What `has_changes` answered.
abbrev pub has_changed : Answer Bool → Bool
has_changed (ok b) = b
has_changed _ = false

-- A secret is to be written, and the files were uploaded where that is needed.
abbrev pub is_written :
    Env → Round → Agent → Secret → List (String × String × String) → Bool → Answer Bool → Bool
is_written env r a s files need_create (ok changed) =
    (need_create || changed)
    && (not (changed && needs_upload r)
        || (is_nil (env.client_set (object_key a.metadata)) && are_uploaded env s files))
is_written env r a s files need_create _ = false

write_secret-writes :
    (env : Env) (r : Round) (a : Agent) (key : Key) (s : Secret) (need_create changed : Bool)
    (w : World)
    → writes (write_secret env r a key s need_create changed w).2 ≡ need_create || changed
write_secret-writes env r a key s true changed w = ground arith
write_secret-writes env r a key s false true w = ground arith
write_secret-writes env r a key s false false w = refl

writes-append : (xs ys : List Effect) → writes (xs ++ ys) ≡ (writes xs || writes ys)
writes-append [] ys = refl
writes-append (created_secret s ∷ xs) ys = refl
writes-append (patched_secret s ∷ xs) ys = refl
writes-append (deleted_machine k ∷ xs) ys = writes-append xs ys
writes-append (uninstalled ∷ xs) ys = writes-append xs ys
writes-append (uploaded p c ∷ xs) ys = writes-append xs ys
writes-append (deleted_holder k ∷ xs) ys = writes-append xs ys
writes-append (created_certificate k ∷ xs) ys = writes-append xs ys
writes-append (installed ∷ xs) ys = writes-append xs ys
writes-append (patched a ∷ xs) ys = writes-append xs ys

upload-writes :
    (env : Env) (r : Round) (a : Agent) (key : Key) (new : Secret)
    (files : List (String × String × String)) (need_create changed : Bool) (w : World)
    → writes ((upload env a new files >> write_secret env r a key new need_create changed) w).2
      ≡ (need_create || changed)
        && (is_nil (env.client_set (object_key a.metadata)) && are_uploaded env new files)
upload-writes env r a key new files need_create changed w =
    elim (Option-cases (env.client_set (object_key a.metadata))) [
      | inr (e, c) ↦ rw c (ground arith)
      | inl c ↦
          let (answered, silent) = upload_files-are_uploaded env new files w in
          let later = λ (v : World). write_secret-writes env r a key new need_create changed v in
          elim (Answer-cases (upload_files env new files w).0) [
            | inl (u, e) ↦ rw c (
                rw e (
                  writes-append (upload_files env new files w).2 _
                  ∙ rw silent (later (upload_files env new files w).1 ∙ ground (arith, answered))))
            | inr (inl (x, e)) ↦ rw c (rw e (silent ∙ ground (arith, answered)))
            | inr (inr e) ↦ rw c (rw e (silent ∙ ground (arith, answered)))
          ]
    ]

after_changes-writes :
    (env : Env) (r : Round) (a : Agent) (k : SecretSync) (key : Key) (new : Secret)
    (need_create changed : Bool) (w : World)
    → writes
        ((upload_changed env r a new k changed >> write_secret env r a key new need_create changed)
          w).2
      ≡ is_written env r a new k.files need_create (ok changed)
after_changes-writes env r a k key new need_create changed w =
    elim (Bool-cases (changed && needs_upload r)) [
      | inl e ↦ rw e (upload-writes env r a key new k.files need_create changed w)
      | inr e ↦ rw e (write_secret-writes env r a key new need_create changed w ∙ ground arith)
    ]

-- The active secret of an agent is written exactly if it is new or differs from what the issued one
-- makes of it, and, where it differs and the agent is connected, the agent has a client and every
-- file was uploaded first.
pub refresh-writes :
    (env : Env) (r : Round) (a : Agent) (k : SecretSync) (key : Key) (active : Secret)
    (need_create : Bool) (new : Secret) (w : World)
    → writes (refresh env r a k key active need_create new w).2
      ≡ is_written env r a new k.files need_create
          (has_changes env.patch_data env.unmarshal env.wrapf active new)
unfolding refresh
refresh-writes env r a k key active need_create new w =
    elim (Answer-cases (has_changes env.patch_data env.unmarshal env.wrapf active new)) [
      | inl (changed, c) ↦ rw c (after_changes-writes env r a k key new need_create changed w)
      | inr (inl (e, c)) ↦ rw c refl
      | inr (inr c) ↦ rw c refl
    ]
