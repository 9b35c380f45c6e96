-- ===== src/Api/WriteFile.antt =====
-- internal/api/admin.go: `atomicWriteFile`, which writes a file that the caller names. Modes are not
-- modelled.
pub mod Allowed
use tailkitd.Prelude.{
  Bool, ◌&&◌, ◌||◌, Option, none, some, [], ◌∷◌, ◌++◌, Text, codes, str_eq, has_prefix, has_suffix,
  if◌then◌else◌,
}
use tailkitd.Os.{Outcome, mkdir_all, ok, err}
use tailkitd.Os.Atomic.{atomic_write}
use tailkitd.Api.Http.{Method, Response, reply, Node, method_post}
use tailkitd.Api.Transfer.{at}

pub record WriteRequest : Type 0 where
  pub path : Text
  pub encoding : Text
  -- the field `data`
  pub body : Text

-- The paths that the node is configured with
pub record Paths : Type 0 where
  pub host_config_path : Text
  pub admin_fence_path : Text
  pub services_dir : Text

-- `allowedAtomicWritePath`
unfoldable pub allowed_atomic_write_path : Paths → Text → Bool
allowed_atomic_write_path p path =
    (str_eq path p.host_config_path || str_eq path p.admin_fence_path)
    || (has_prefix path (p.services_dir ++ b'/' ∷ []) && has_suffix path (codes ".toml"))

module _ (base64_decode : Text → Option Text) (p : Paths) where
  -- The bytes that the request carries, or the 400 for them
  unfoldable pub content_of : WriteRequest → Option Text
  content_of req =
      if str_eq req.encoding [] || str_eq req.encoding (codes "utf-8")
      then some req.body
      else if str_eq req.encoding (codes "base64")
      then base64_decode req.body
      else none

  abbrev after_write : Outcome Unit → Node → Response × Node
  after_write (err e) n = (reply 409, n)
  after_write (ok _) n = (reply 200, n)

  abbrev after_mkdir : Text → Text → Outcome Unit → Node → Response × Node
  after_mkdir path content (err e) n = (reply 500, n)
  after_mkdir path content (ok _) n =
      let (r, w) = atomic_write path content n.world in after_write r (at n w)

  abbrev with_content : Text → Option Text → Node → Response × Node
  with_content path none n = (reply 400, n)
  with_content path (some content) n =
      let (r, w) = mkdir_all n.world in after_mkdir path content r (at n w)

  abbrev with_request : Option WriteRequest → Node → Response × Node
  with_request none n = (reply 400, n)
  with_request (some req) n =
      if allowed_atomic_write_path p req.path
      then with_content req.path (content_of req) n
      else (reply 403, n)

  -- `atomicWriteFile`; the body is `none` if it is no such JSON.
  unfoldable pub atomic_write_file : Method → Option WriteRequest → Node → Response × Node
  atomic_write_file method_post body n = with_request body n
  atomic_write_file _ body n = (reply 405, n)
