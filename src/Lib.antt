-- ===== src/Lib.antt =====
-- tripgoctl starts and inspects a local kind cluster with a registry, and in it the environments of
-- five labs. The command line (internal/cli) reads environment.toml, takes the cluster's operation
-- lock through a lease and drives the Kubernetes API, Docker and kind; a compiled-in catalog says
-- what each lab has.
--
-- The files and the code they are about:
--   Base, Text, Sorting: shared names, texts and their order, `slices.Sort`.
--   BoundedIo: internal/boundedio/buffer.go. A buffer is its bytes; `Write` returns the new buffer.
--   Progress: internal/progress/progress.go. The reporter is the list of the events it received.
--   Errors: error values as trees of causes, and `ExitCode` of internal/cli/errors.go.
--   Catalog: internal/catalog. A lookup in a Go map returns an option; `Found` adds the panic.
--   Config: internal/environment/config.go. The TOML decoder is a parameter.
--   Effects: operations that make calls. A `World` answers each call from the history of the calls
--     before it, so a theorem for all worlds covers every answer and every failure. `Keeps` says
--     that an operation keeps an invariant of the history.
--   Cluster: internal/cluster/{state,config,constants,downloader,service}.go. `State` has the state
--     file and the lock, `Commands` the calls of Docker and kind, `Downloader` the kind binary,
--     `Lifecycle` and `Stopping` the operations `Start`, `Inspect` and `Stop`, `Lease` the
--     environment lease, `Membership` the projection of the environments, `Locking` who holds the
--     lock, `Ownership` what `Stop` may delete.
--   Generator: internal/generator/{generator,write}.go. The embedded templates and their engine are a
--     parameter; `Lookups` has what the templates in templates/ look up and `Supply` where it comes
--     from, `Contract` and `Rendered` are about `Generate`, `Write` is the transactional output.
--   PushService: internal/pushservice/{service,config,http,grpc}.go. Floats, the clock, rate.Limiter,
--     uuid, JSON and the parsers of strconv and time are parameters. `Processing` has the state and
--     its operations, `Steps` what holds between any two critical sections, `Outcomes`, `Recording`
--     and `Patching` what a request and a patch do, `Transports` and `Strict` the two front ends.
--   Lab: internal/lab/service.go and internal/redpanda/config.go. `Ownership`, `Endpoints` and
--     `Redpanda` have the checks of objects, `Readiness` the waits and the status, `Manifests` the
--     server-side apply, `Files` the files of the project, `Operations` the operations `Status` and
--     `Reset`, `Lifecycle` `Start` and `Stop`, `Listing` `List`; `Reads`, `Guards`, `Release`,
--     `Deletion`, `Waiting`, `Changes`, `Outputs` and `Transitions` have the proofs on their histories.
--   Cli: internal/cli/{root,commands}.go. `Dependencies` answers each call from the calls before it;
--     `Commands` and `Connect` are the commands, `Confirmation` is about what they delete.
--   PushImage: internal/pushimage/provider.go and internal/pushartifact/artifact.go. The embedded
--     binary, the ELF header and JSON are a parameter; `Reference` is about what `Ensure` returns, which
--     `Start` of an environment calls, and `Calls` about the calls that it makes.
--   ContractAsset: internal/contractasset/asset.go. The embedded files, JSON and SHA-256 are a
--     parameter; `Contract` is about what `ValidateLinked` accepts.
--   Tests: the theorems at concrete data and in a small world.
--
-- Bounds: `%d` is written with as many steps as the number has units, more than its digits. A poll
-- has a round at its start and one for each interval of its ten minutes, 601 or 1201 in all, and
-- then fails with the deadline, as the library's does. Each check of a wait's context is a call, so the
-- context may end between any two of them. All other loops are over lists.
--
-- Not modelled: progress reports and resource warnings of the operations, which decide nothing; file
-- modes; the texts that `fmt.Errorf` puts into a format string; two processes at once, except that
-- the world may refuse the lock. Kubernetes objects are abstract, with the accessors that the code
-- uses. Of internal/lab the logs and the pod diagnostics are not modelled. The start and stop
-- of the two push servers, the command runners, the doctor with its command, the cobra wiring, the
-- terminal progress, the redaction of texts and the build information are not modelled.
pub mod Base
pub mod BoundedIo
pub mod Progress
pub mod Errors
pub mod Text
pub mod Sorting
pub mod Catalog
pub mod Config
pub mod Effects
pub mod Cluster
pub mod Generator
pub mod ContractAsset
pub mod PushImage
pub mod Lab
pub mod PushService
pub mod Cli
pub mod Tests
