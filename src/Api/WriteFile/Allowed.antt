-- ===== src/Api/WriteFile/Allowed.antt =====
-- internal/api/admin.go: what `atomicWriteFile` may write.
use tailkitd.Prelude.{
  ◌≡◌, refl, ◌⊎◌, inl, inr, true, false, Option, none, some, [], ◌∷◌, ◌++◌, arith, Dict, insert,
  has_prefix_cut, has_suffix_cut, Text, codes, str_eq, eq_of_str_eq, has_prefix, has_suffix,
  Bool-cases,
}
use tailkitd.Os.{Outcome, World, mkdir_all, mkdir_all-files, ok, err}
use tailkitd.Os.Atomic.{atomic_write, Written, atomic_write_lem}
use tailkitd.Api.Http.{
  Method, Response, Node, is_success, method_get, method_post, method_put, method_patch,
  method_delete, method_other,
}
use tailkitd.Api.Transfer.{at}
use tailkitd.Api.WriteFile.{
  WriteRequest, Paths, allowed_atomic_write_path, content_of, atomic_write_file, after_write,
  after_mkdir, with_content, with_request,
}

module _ (base64_decode : Text → Option Text) (p : Paths) where
  -- One of the two files, or the directory of the services, a slash, and a name with the suffix, which
  -- may have slashes and dots in it
  abbrev pub MayWrite : Text → Type 0
  MayWrite path =
      (path ≡ p.host_config_path)
      ⊎ ((path ≡ p.admin_fence_path)
          ⊎ (((name : Text) × (path ≡ (p.services_dir ++ b'/' ∷ []) ++ name))
              × ((stem : Text) × (path ≡ stem ++ codes ".toml"))))

  allowed-MayWrite : (path : Text) → allowed_atomic_write_path p path ≡ true → MayWrite path
  unfolding allowed_atomic_write_path
  allowed-MayWrite path h = elim (Bool-cases (str_eq path p.host_config_path)) [
    | inl e ↦ inl (eq_of_str_eq path p.host_config_path e)
    | inr n ↦ elim (Bool-cases (str_eq path p.admin_fence_path)) [
      | inl e ↦ inr (inl (eq_of_str_eq path p.admin_fence_path e))
      | inr m ↦
          let below : has_prefix path (p.services_dir ++ b'/' ∷ []) ≡ true =
            ground (arith, h, n, m) in
          let ends : has_suffix path (codes ".toml") ≡ true = ground (arith, h, n, m) in
          inr (
            inr (
              has_prefix_cut path (p.services_dir ++ b'/' ∷ []) below,
              has_suffix_cut path (codes ".toml") ends,
            ))
    ]
  ]

  -- The file that the request names has been replaced by what it carries.
  abbrev pub Replaced : Option WriteRequest → Dict Text → Dict Text → Type 0
  Replaced body before after =
      (req : WriteRequest) × (content : Text) × (body ≡ some req)
      × MayWrite req.path
      × (content_of base64_decode p req ≡ some content)
      × (after ≡ insert req.path content before)

  abbrev pub WriteOutcome : Option WriteRequest → Node → Response × Node → Type 0
  WriteOutcome body n out =
      ((out.0.status ≡ 200) × Replaced body n.world.files out.1.world.files)
      ⊎ ((is_success out.0.status ≡ false) × (out.1.world.files ≡ n.world.files))

  after_write_lem :
      (req : WriteRequest) (content : Text) (n : Node) (r : Outcome Unit) (w : World Text)
      → allowed_atomic_write_path p req.path ≡ true
      → content_of base64_decode p req ≡ some content
      → Written req.path content r n.world.files w.files
      → WriteOutcome (some req) n (after_write base64_decode p r (at n w))
  after_write_lem req content n (ok u) w may has e =
      inl (refl, (req, content, refl, allowed-MayWrite req.path may, has, e))
  after_write_lem req content n (err x) w may has e = inr (refl, e)

  after_mkdir_lem :
      (req : WriteRequest) (content : Text) (n : Node) (r : Outcome Unit) (w : World Text)
      → allowed_atomic_write_path p req.path ≡ true
      → content_of base64_decode p req ≡ some content
      → w.files ≡ n.world.files
      → WriteOutcome (some req) n (after_mkdir base64_decode p req.path content r (at n w))
  after_mkdir_lem req content n (err x) w may has same = inr (refl, same)
  after_mkdir_lem req content n (ok u) w may has same =
      let (r, w') = atomic_write req.path content w in
      after_write_lem req content n r w' may has (rw (← same) (atomic_write_lem req.path content w))

  with_content_lem :
      (req : WriteRequest) (o : Option Text) (n : Node)
      → allowed_atomic_write_path p req.path ≡ true
      → content_of base64_decode p req ≡ o
      → WriteOutcome (some req) n (with_content base64_decode p req.path o n)
  with_content_lem req none n may has = inr (refl, refl)
  with_content_lem req (some content) n may has =
      after_mkdir_lem req content n (mkdir_all n.world).0 (mkdir_all n.world).1 may has
        (mkdir_all-files n.world)

  with_request_lem :
      (body : Option WriteRequest) (n : Node)
      → WriteOutcome body n (with_request base64_decode p body n)
  with_request_lem none n = inr (refl, refl)
  with_request_lem (some req) n = elim (Bool-cases (allowed_atomic_write_path p req.path)) [
    | inl e ↦ rw e (with_content_lem req (content_of base64_decode p req) n e refl)
    | inr e ↦ rw e (inr (refl, refl))
  ]

  -- A request is answered with 200 only if its path is that of one of the two files, or is the
  -- directory of the services, a slash and a name, and ends in .toml, and then the file of just that
  -- path, which is not cleaned of `..`, has been replaced by what the request carries; any other answer
  -- leaves the files as they were.
  pub atomic_write_file_lem :
      (m : Method) (body : Option WriteRequest) (n : Node)
      → WriteOutcome body n (atomic_write_file base64_decode p m body n)
  unfolding atomic_write_file
  atomic_write_file_lem method_post body n = with_request_lem body n
  atomic_write_file_lem method_get body n = inr (refl, refl)
  atomic_write_file_lem method_put body n = inr (refl, refl)
  atomic_write_file_lem method_patch body n = inr (refl, refl)
  atomic_write_file_lem method_delete body n = inr (refl, refl)
  atomic_write_file_lem method_other body n = inr (refl, refl)
