-- ===== src/Tests/Provision.antt =====
-- Runs of internal/provision/provision.go and internal/api/provision.go.
use tailkitd.Prelude.{
  ◌≡◌, refl, Bool, Option, none, some, [], ◌∷◌, lookup, insert, Text, codes, str_eq, to_lower,
  trim_space,
}
use tailkitd.Os.Atomic.{atomic_write}
use tailkitd.Os.{World, syscall, read_file, mkdir_all, ok}
use tailkitd.Api.Http.{method_post}
use tailkitd.Services.Registry.{OutsiderServiceConfig, validate, file_path}
use tailkitd.Provision.{
  Request, provision, Packages, is_runtime, service_config, metadata_of, verify_artifact, install,
}
use tailkitd.Provision.Verified.{provision_lem, IsSigned, Installed}
use tailkitd.Provision.Serve.{Server, serve, Call}
use tailkitd.Provision.Serve.Allowed.{serve_lem, ServeOutcome}

-- Packages that write everything as it is.
abbrev packages : Packages
packages = record {
  sha256 = λ t. t;
  hex = λ t. t;
  decode = λ t. some t;
  verify = λ k m s. some (str_eq s (codes "sig"));
  marshal = λ m. m.service_name;
  toml_encode = λ s. ok s.name;
}

abbrev request : Request
request = record {
  artifact_hash = codes "bin";
  signature = codes "sig";
  sender_public_key = codes "key";
  service_name = codes "web";
  runtime = codes "port-only";
  staged_path = codes "/s";
  expected_ports = 80 ∷ [];
}

abbrev disk : World Text
disk = record { files = (codes "/s", codes "bin") ∷ []; temp = none; faults = [] }

-- Another process replaces the staged file after the check.
abbrev swap : World Text → World Text
swap w = record w { files = (codes "/s", codes "bad") ∷ [] }

provisioned :
    (provision packages (λ v. v) (codes "/d") 7 request disk).0 ≡ ok (metadata_of request 7)
unfolding provision verify_artifact install read_file atomic_write mkdir_all syscall lookup insert
    str_eq service_config validate to_lower trim_space file_path is_runtime
provisioned = refl

swapped : (provision packages swap (codes "/d") 7 request disk).0 ≡ ok (metadata_of request 7)
unfolding provision verify_artifact install read_file atomic_write mkdir_all syscall lookup insert
    str_eq service_config validate to_lower trim_space file_path is_runtime
swapped = refl

provision_lem_example :
    let v = swap (verify_artifact packages request disk).1 in
    ((verified : Text) × (lookup request.staged_path disk.files ≡ some verified)
      × IsSigned packages request verified)
    × ((verify_artifact packages request disk).1.files ≡ disk.files)
    × ((content : Text) × (lookup request.staged_path v.files ≡ some content)
        × Installed packages
            (codes "/d")
            request
            7
            content
            v.files
            (provision packages swap (codes "/d") 7 request disk).1.files)
provision_lem_example =
    provision_lem packages swap (codes "/d") 7 request disk (metadata_of request 7) swapped

abbrev no_toml : Text → Option (OutsiderServiceConfig × Bool)
no_toml text = none

abbrev server : Server
server = record { epoch = none; grants = none; services = []; world = disk }

abbrev call : Call
call = record {
  method = method_post;
  state_epoch = codes "0";
  body = some request;
  login = some (codes "ann");
}

serve_lem_example :
    ServeOutcome packages no_toml
      (λ v. v)
      (codes "/d")
      7
      call
      server
      (serve packages no_toml (λ v. v) (codes "/d") 7 call server)
serve_lem_example = serve_lem packages no_toml (λ v. v) (codes "/d") 7 call server
