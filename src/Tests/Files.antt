-- ===== src/Tests/Files.antt =====
-- Runs of internal/files/handlers.go.
use tailkitd.Prelude.{
  ◌≡◌, refl, Bool, true, false, Option, none, some, [], ◌∷◌, lookup, clean, path_join, split, join,
  cut, Text, codes, str_eq, has_prefix, cut_prefix, if◌then◌else◌,
}
use tailkitd.Prelude.Paths.Inside.{}
use tailkitd.Os.Atomic.{create_temp, or_close, write_temp, rename_temp, deferred_remove}
use tailkitd.Os.{World, syscall, read_file, remove, mkdir_all, ok}
use tailkitd.Api.Http.{method_delete, is_success}
use tailkitd.Files.{ResolvedIdentity, PathRule, FilesConfig, file_content, sent_to}
use tailkitd.Files.Identity.{
  Thread, Permissions, as_identity, open_and_read, read_file_with, place, receive_as, raw_setgid,
  raw_setuid, receive,
}
use tailkitd.Files.Inbox.{
  tool_dir, resolve_inbox_path, trim_slash, handle_inbox_delete, InboxRequest, inbox_route,
  serve_inbox,
}
use tailkitd.Files.Transfer.{
  WriteRequest, ReadRequest, guard_path, write_inbox, handle_write, handle_read_file, handle_read,
  inbox_dest,
}
use tailkitd.Files.Transfer.Laws.{WriteOutcome, handle_write_lem, handle_write-no_identity}
use tailkitd.Files.Transfer.Reading.{ReadOutcome, handle_read_lem}

abbrev disk : World Text
disk = record {
  files =
      (codes "/var/lib/tailkitd/recv/web/a.txt", codes "hello")
      ∷ (codes "/srv/app/b.txt", codes "b")
      ∷ (codes "/srv/app-keys/k", codes "key")
      ∷ [];
  temp = none;
  faults = [];
}

abbrev nobody : ResolvedIdentity
nobody = record { uid = 0; gid = 0; is_set = false }

abbrev app : PathRule
app = record {
  dir = codes "/srv/app/";
  allow = codes "read" ∷ codes "write" ∷ [];
  share = true;
  use_as_user = [];
  use_as = nobody;
}

abbrev config : FilesConfig
config = record { enabled = true; paths = app ∷ [] }

-- A matcher that compares the directory of the one rule as a prefix
abbrev matcher : FilesConfig → Text → Option (PathRule × Text)
matcher cfg path = if has_prefix path app.dir then some (app, app.dir) else none

abbrev permits : PathRule → Text → Bool
permits rule op = true

abbrev everything : Permissions
everything = record { may_read = λ u g path. true; may_write = λ u g path. true }

abbrev root : Thread
root = record { uid = 0; gid = 0; capable = true }

abbrev daemon : Thread
daemon = record { uid = 900; gid = 900; capable = false }

abbrev delete_request : InboxRequest
delete_request = record {
  method = method_delete;
  path = codes "/inbox/web/file";
  query = codes "sub/../a.txt";
}

deletes : (serve_inbox config delete_request disk).0.status ≡ 204
unfolding serve_inbox inbox_route handle_inbox_delete resolve_inbox_path clean path_join tool_dir
    remove str_eq cut cut_prefix has_prefix join split lookup
deletes = refl

escapes :
    (serve_inbox config (record delete_request { query = codes "../b/a.txt" }) disk).0.status ≡ 400
unfolding serve_inbox inbox_route handle_inbox_delete resolve_inbox_path clean path_join tool_dir
    remove str_eq cut cut_prefix has_prefix join split
escapes = refl

abbrev asks : Text → ReadRequest
asks path = record { path = path; dir = []; stat = false }

reads :
    (handle_read matcher permits everything config daemon
      (asks (codes "/srv/app/./b.txt"))
      disk).0.body
    ≡ file_content (codes "b")
unfolding handle_read handle_read_file guard_path clean trim_slash read_file_with open_and_read
    read_file str_eq has_prefix join split lookup
reads = refl

-- The prefix is compared without its slash, so a directory beside the rule's is read too.
reads_beside :
    (handle_read matcher permits everything config daemon
      (asks (codes "/srv/app/../app-keys/k"))
      disk).0.body
    ≡ file_content (codes "key")
unfolding handle_read handle_read_file guard_path clean trim_slash read_file_with open_and_read
    read_file str_eq has_prefix join split lookup
reads_beside = refl

abbrev upload : WriteRequest
upload = record {
  dest_path = codes "/srv/app/c.txt";
  tool = [];
  filename = [];
  upload = ok (codes "c");
}

writes : (handle_write matcher permits everything config root upload disk).0.status ≡ 200
unfolding handle_write guard_path clean trim_slash receive_as as_identity place str_eq has_prefix
    join split syscall raw_setgid raw_setuid mkdir_all create_temp deferred_remove or_close
    write_temp rename_temp
writes = refl

abbrev beside : WriteRequest
beside = record upload { dest_path = []; tool = codes "../recv2"; filename = codes "x" }

-- So does the prefix of the inbox.
writes_beside :
    (handle_write matcher permits everything config root beside disk).0.body
    ≡ sent_to (codes "/var/lib/tailkitd/recv2/x") 1
unfolding handle_write write_inbox str_eq has_prefix clean inbox_dest path_join join split mkdir_all
    receive create_temp deferred_remove or_close write_temp rename_temp
writes_beside = refl

handle_write_lem_example :
    WriteOutcome matcher permits everything config root upload disk
      (handle_write matcher permits everything config root upload disk)
handle_write_lem_example = handle_write_lem matcher permits everything config root upload disk

handle_read_lem_example :
    ReadOutcome matcher permits everything config daemon
      (codes "/srv/app/b.txt")
      disk
      (handle_read matcher permits everything config daemon (asks (codes "/srv/app/b.txt")) disk)
handle_read_lem_example =
    handle_read_lem matcher permits everything config daemon (asks (codes "/srv/app/b.txt")) disk

handle_write-no_identity_example :
    let out = handle_write matcher permits everything config daemon upload disk in
    (is_success out.0.status ≡ false) × (out.1.files ≡ disk.files)
unfolding str_eq has_prefix
handle_write-no_identity_example =
    handle_write-no_identity matcher permits everything config daemon upload disk app app.dir refl
      refl refl refl
