-- ===== src/Provision.antt =====
-- internal/provision/provision.go: a service is installed from an artifact that was staged before.
pub mod Verified
pub mod Serve
use tailkitd.Prelude.{
  ℕ, Bool, true, false, ◌||◌, Option, none, some, List, [], ◌∷◌, path_join, Text, codes, str_eq,
  if◌then◌else◌,
}
use tailkitd.Os.{
  Outcome, World, Io, pure, lift, ◌>>=◌, ◌>>◌, read_file, mkdir_all, malformed, invalid, panic, ok,
  err,
}
use tailkitd.Os.Atomic.{atomic_write}
use tailkitd.Services.Registry.{OutsiderServiceConfig, validate, file_path}

pub record Request : Type 0 where
  pub artifact_hash : Text
  pub signature : Text
  pub sender_public_key : Text
  pub service_name : Text
  pub runtime : Text
  pub staged_path : Text
  pub expected_ports : List ℕ

pub record Metadata : Type 0 where
  pub service_name : Text
  pub runtime : Text
  pub artifact_hash : Text
  pub artifact_path : Text
  pub provisioned_at : ℕ

-- The packages under it: SHA-256, hexadecimal, base64, ed25519, JSON and TOML. `verify` takes the
-- key, the message and the signature; it is `none` where ed25519 panics, for a key of a wrong size.
pub record Packages : Type 0 where
  pub sha256 : Text → Text
  pub hex : Text → Text
  pub decode : Text → Option Text
  pub verify : Text → Text → Text → Option Bool
  pub marshal : Metadata → Text
  pub toml_encode : OutsiderServiceConfig → Outcome Text

abbrev decoded : Option Text → Outcome Text
decoded none = err malformed
decoded (some text) = ok text

abbrev verdict : Option Bool → Outcome Unit
verdict none = err panic
verdict (some true) = ok tt
verdict (some false) = err invalid

unfoldable pub is_runtime : Text → Bool
is_runtime r = str_eq r (codes "port-only") || str_eq r (codes "restricted-systemd")

abbrev pub base_dir : Text
base_dir = codes "/var/lib/tailkitd/services"

-- `filepath.Join(filepath.Join(BaseDir, name), file)`, which cleans the path
unfoldable pub service_file : Text → Text → Text
service_file name file = path_join (path_join base_dir name) file

abbrev pub artifact_path_of : Request → Text
artifact_path_of req = service_file req.service_name (codes "artifact")

-- The configuration that is written for the service
unfoldable pub service_config : Request → OutsiderServiceConfig
service_config req =
    let is_port_only = str_eq req.runtime (codes "port-only") in
    record {
      name = req.service_name;
      runtime = if is_port_only then codes "port-only" else codes "binary";
      priority = codes "normal";
      tags = codes "provisioned" ∷ [];
      expected_ports = req.expected_ports;
      systemd_unit = [];
      binary_path = if is_port_only then [] else artifact_path_of req;
      pid_file = if is_port_only then [] else service_file req.service_name (codes "service.pid");
    }

abbrev pub metadata_of : Request → ℕ → Metadata
metadata_of req now = record {
  service_name = req.service_name;
  runtime = req.runtime;
  artifact_hash = req.artifact_hash;
  artifact_path = artifact_path_of req;
  provisioned_at = now;
}

module _ (p : Packages) where
  abbrev check_hash : Request → Text → Outcome Unit
  check_hash req content =
      if str_eq (p.hex (p.sha256 content)) req.artifact_hash then ok tt else err invalid

  -- `VerifyArtifact`
  unfoldable pub verify_artifact : Request → Io Text Unit
  verify_artifact req = do
    content ← read_file req.staged_path
    lift (check_hash req content)
    key ← lift (decoded (p.decode req.sender_public_key))
    sig ← lift (decoded (p.decode req.signature))
    lift (verdict (p.verify key (p.sha256 content) sig))

  abbrev check_runtime : Request → Outcome Unit
  check_runtime req = if is_runtime req.runtime then ok tt else err invalid

  -- What comes after the check: the artifact is read again. The argument `meanwhile` is what other
  -- processes do to the files between the two reads.
  unfoldable pub install : Text → ℕ → Request → Io Text Metadata
  install services_dir now req = do
    mkdir_all
    content ← read_file req.staged_path
    atomic_write (artifact_path_of req) content
    atomic_write (service_file req.service_name (codes "meta.json"))
        (p.marshal (metadata_of req now))
    svc ← lift (validate (service_config req))
    text ← lift (p.toml_encode svc)
    mkdir_all
    atomic_write (file_path services_dir req.service_name) text
    pure (metadata_of req now)

  abbrev pub interfere : (World Text → World Text) → Io Text Unit
  interfere meanwhile w = (ok tt, meanwhile w)

  -- `Provision`
  unfoldable pub provision : (World Text → World Text) → Text → ℕ → Request → Io Text Metadata
  provision meanwhile services_dir now req = do
    lift (check_runtime req)
    verify_artifact req
    interfere meanwhile
    install services_dir now req
