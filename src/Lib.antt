-- ===== src/Lib.antt =====
-- tailkitd is the daemon that runs on every node of a tailnet: it serves the node's variables, jobs,
-- services and files over HTTP, and lets the admin change them on other nodes. This library models
-- its own logic; what it calls of other packages is a parameter of the model.
--
-- Parts, and the files that model them:
-- - Os, Os/Plain: the file system that the other parts share. A `World` has the files, the open
--   temporary file and the faults to come; every system call takes the next fault. `Error` is Go's
--   `error`, by what the program tests of it. Os/Atomic: internal/utils/atomic_write.go.
-- - State/Epoch: internal/state/epoch.go, the counter of configuration changes.
-- - Access/Registry: internal/access/registry.go, who may do what (`Validate`, `RoleFor`, `Allow`,
--   `loadFile`, `Reload`).
-- - Api/Gate: `requireAdminKey` of internal/api/admin.go, the gate before the admin handlers, which
--   puts together the key, the epoch and the grants. Api/Routes: `ServeHTTP` and
--   `handleHostMutation`, which choose the handler, against `requiredCapability`.
-- - Api/Transfer: `transferAdmin` and `acceptPromotion` of internal/api/admin.go, with the network
--   between two nodes in Handover. Api/WriteFile: `atomicWriteFile` of the same file.
-- - Admin/Election, Admin/Files: internal/admin/bootstrap.go, the election at the start and the two
--   files that a node starts with.
-- - Vars/Store: internal/vars/store.go, one JSON file for each scope of variables.
-- - Invite/Token, Invite/Store, Invite/Claim: internal/invite/token.go, internal/invite/store.go and
--   internal/api/invites.go, signed invitations that are claimed once.
-- - Exec/Jobs, Exec/Events, Exec/Stream: internal/exec/jobs.go and internal/exec/handlers.go, with
--   the writer of internal/sse/writer.go, results of background jobs and their resumable stream.
-- - Services/Registry, Services/Push: internal/services/registry.go, and `pushService` and
--   `deleteService` of internal/api/admin.go.
-- - Provision, Provision/Serve: internal/provision/provision.go and internal/api/provision.go, which
--   install a service from a staged artifact.
-- - Vars/Handlers, Config/Vars: internal/vars/handlers.go and internal/config/vars.go, the requests
--   for variables and the scopes that they may name.
-- - Files, Files/Inbox, Files/Transfer, Files/Identity: internal/files/handlers.go, the inbox of
--   received files, the requests that read, send and receive them, and the change of the thread's
--   user and group around an operation on files.
-- - Config/Host: internal/config/host.go, the hosts that the node knows, their file and its watcher;
--   Api/PushHost: `pushHostConfig` of internal/api/admin.go. Api/Grants: internal/api/access.go, the
--   grants that are posted.
-- - Config/Files, Config/Integrations, Config/Logging: the validation of internal/config/files.go,
--   docker.go, systemd.go, metrics.go and logging.go of the same directory, with the loading that they
--   share, and helpers.go, in Config/Loading.
-- - Tools: internal/tools/registry.go and the versions of its tools. Exec/Index:
--   internal/exec/registry.go, the commands that a request may start.
-- - Systemd/Units, Systemd/Tasks, Systemd/Journal: internal/systemd, the requests for units, the jobs
--   that they start, and the journal. Identity: internal/identity/keys.go, the key pair on disk.
-- - Metrics/Address, Metrics/Ports: the sockets of /proc/net and the snapshot of listening ports of
--   internal/metrics.
-- - Prelude: lists, strings, paths of files (`filepath.Clean` and
--   `Join`), maps, sorting, decimal numbers and the order of strings; Tests: runs.
--
-- How the code is modelled. A string is its list of bytes; `ToLower`, `TrimSpace` and the host names
-- are those of ASCII. A Go map is an association list. `int64` is ℤ with the wrap-around of `n++` at
-- 2 ^ 63 written out (`inc64`); `%d` and `ParseInt` are `print_int` and `parse_int`. A time is a
-- natural number of nanoseconds. A handler is a function from a request and the state of the node
-- to a status and the new state. What runs under a lock is one step.
-- `requireAdminKey` holds none: its checks (`judge`), its handler and `Increment` are steps of their
-- own, between which another request may run, and `require_admin_key` is a request that runs alone.
-- Loops over lists are structural recursions. The one fuel is that of `print_nat`, which has one
-- step more than the number it prints, and a number has fewer digits than that. A loop that only
-- ends with its context (the stream of a job) is a recursion on the sequence of what it polls.
--
-- Parameters: the TOML decoder and encoder, base64, the JSON of an invitation, of a tool and of the
-- journal, SHA-256, ed25519 keys and signatures, the rules of package tailkit (their validity and
-- what they permit), the user database, the environment, what systemd and journalctl answer, the text
-- form of an IP address, the list of ports of package portlist, the answers of other nodes, what
-- other processes do to a staged file between two reads of it, and the order in which Go visits a map.
--
-- Directories are not modelled: one that nobody made is empty, one that holds no file is not seen, so
-- that to delete an empty directory of the inbox is answered with 404, where the code removes it.
--
-- Not modelled: log fields and most response bodies; the directory watchers of services and grants;
-- `handleConfig` of the files; the loop that follows a journal; and Docker, the counters of the
-- metrics and the installer, which pass calls on to other software.
pub mod Prelude
pub mod Os
pub mod State
pub mod Access
pub mod Vars
pub mod Api
pub mod Invite
pub mod Admin
pub mod Exec
pub mod Files
pub mod Identity
pub mod Services
pub mod Systemd
pub mod Provision
pub mod Config
pub mod Tools
pub mod Metrics
mod Tests
