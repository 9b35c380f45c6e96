-- ===== src/Tests/WriteFile.antt =====
-- Runs of `atomicWriteFile` of internal/api/admin.go.
use tailkitd.Prelude.{
  ◌≡◌, refl, true, none, some, [], ◌∷◌, Text, codes, str_eq, has_prefix, has_suffix,
}
use tailkitd.Os.{World, mkdir_all}
use tailkitd.Os.Atomic.{atomic_write}
use tailkitd.Api.Http.{Node, method_post}
use tailkitd.Api.WriteFile.{
  WriteRequest, Paths, allowed_atomic_write_path, atomic_write_file, content_of,
}
use tailkitd.Api.WriteFile.Allowed.{WriteOutcome, atomic_write_file_lem}

abbrev paths : Paths
paths = record {
  host_config_path = codes "/etc/tailkitd/host.toml";
  admin_fence_path = codes "/etc/tailkitd/admin.fence";
  services_dir = codes "/etc/tailkitd/services.d";
}

abbrev disk : World Text
disk = record {
  files = (codes "/etc/tailkitd/host.toml", codes "a") ∷ [];
  temp = none;
  faults = [];
}

abbrev node : Node
node = record { epoch = none; grants = none; is_admin = true; world = disk }

abbrev body : WriteRequest
body = record {
  path = codes "/etc/tailkitd/services.d/web.toml";
  encoding = codes "utf-8";
  body = codes "name";
}

writes : (atomic_write_file some paths method_post (some body) node).0.status ≡ 200
unfolding atomic_write_file allowed_atomic_write_path content_of str_eq has_prefix has_suffix
    mkdir_all atomic_write
writes = refl

-- The path is not cleaned before its prefix is compared.
leaves_the_directory :
    allowed_atomic_write_path paths (codes "/etc/tailkitd/services.d/../../x.toml") ≡ true
unfolding allowed_atomic_write_path str_eq has_prefix has_suffix
leaves_the_directory = refl

atomic_write_file_lem_example :
    WriteOutcome some paths
      (some body)
      node
      (atomic_write_file some paths method_post (some body) node)
atomic_write_file_lem_example = atomic_write_file_lem some paths method_post (some body) node
