-- ===== src/Lib.antt =====
-- Varkiv: a verification library for the hub's save history and launches, its packages for devices,
-- the agent on a device, and the multiplayer broker.
--
-- The program. Varkiv is a hub (cmd/varkiv, internal/server) over a SQLite catalog
-- (internal/catalog). It keeps games, their files, and the histories of their saves, and it serves
-- agents on the players' devices (internal/deviceagent). An agent enumerates the saves of its
-- bindings, negotiates a sync with the hub (internal/server/sync_api.go), uploads its saves, which
-- the save repository (internal/saves/repository.go) records in the catalog
-- (internal/catalog/save_store.go), and installs those it downloads. The paths inside a save pass
-- internal/portablepath/save.go on both sides, and both sides hash the files of a save. The hub
-- also says how a game is launched on a device (internal/runtimecfg/resolver.go) and builds
-- packages for devices (internal/bundler): a build plans its targets, takes a snapshot of what it
-- replaces, and restores it if it fails. The multiplayer broker (internal/multiplayer/broker.go)
-- stands by itself: it keeps the invitations to games over the network.
--
-- Which file models which part. The modules are named for the parts, and definitions keep the
-- names of the source in snake_case.
--   Common             the names all modules share: lists, Go's maps (Maps), errors as values
--                      (Results), strings as code points (Texts, Trimming, Sorting), encoding/hex
--                      (Hex).
--   Paths              Slashes: what is used of packages strings and path, with path.Clean.
--                      SaveLogical: CleanSaveLogical and windowsReserved of
--                      internal/portablepath/save.go. Portable, Reserved and Again hold the
--                      theorems.
--   Saves              Model: the rows of the save tables and the inputs. Queries: the reading
--                      methods of internal/catalog/save_store.go. Streams: ensureLegacyStreamTx.
--                      Revisions: AddSaveRevision, with a function per statement that can fail.
--                      Blobs and Push: PushSet of internal/saves/repository.go. Cases says what a
--                      committed transaction did; Currency, Bounds, Safety, Storing and Advance
--                      hold the theorems.
--   Sync               Model, Creation and Operations: CreateSyncSession, CompleteSyncOperation,
--                      FailSyncOperation and RecalculateSyncSession of
--                      internal/catalog/sync_session_store.go. Plan: the operations that
--                      createSyncSession of internal/server/sync_api.go proposes for the save
--                      states. Keeping, Idempotence, Progress and Planning hold the theorems.
--   Pairing            Model and Store: pairing codes, client tokens and the revocation of devices of
--                      internal/catalog/sync_store.go. Revocation and Redeeming hold the theorems.
--   Runtime            Names: the file names of internal/catalog/runtime_store.go. Artifacts: the
--                      roles of internal/catalog/models.go. Arguments, Selection and Resolver:
--                      ValidateLaunchArguments, SelectLaunchArtifact, Resolve, ResolveCore and
--                      ResolveLaunchBinding of internal/runtimecfg/resolver.go and
--                      internal/catalog/runtime_store.go. Resolving, Selection and Variables hold
--                      the theorems.
--   Bundler            Files: the output of a build and the checks on its paths in
--                      internal/bundler/bundler.go. Targets: the closure addTarget of plan.go.
--                      Recovery: recovery.go and copyAtomic of bundler.go. Device:
--                      device_preflight.go. Ownership, Additions, References, Collisions, Rollback
--                      and Snapshot hold the theorems.
--   Agent              LocalSets, Download, Install and Loop: the saves of a binding, the download
--                      of a revision, its installation and a session with the hub, of
--                      internal/deviceagent/sync.go; the checks on the protocol's identifiers, of
--                      client.go. Agreement, Budget, Recoverable and Retrying hold the theorems;
--                      Agreement joins the agent to the module Saves.
--   Multiplayer        Model, Input and Broker: internal/multiplayer/broker.go, one function per
--                      operation. Cases, Compatibility, Joining, Rejoining, Expiry, Invariant and
--                      Lifetime hold the theorems.
--
-- How state and calls are modelled. A method becomes a function from the state to the state and a
-- result. The broker's state is its map of sessions; a lock that is held for a whole method makes
-- the method one step. A table is the list of its rows, and a transaction either gives the new
-- store or leaves the old one; primary keys, foreign keys and unique columns are the tests under
-- which a statement is refused. The times a call reads, the identifiers it draws and the random
-- bytes are arguments. int64 values that the source tests for being negative are ℤ; lengths and
-- sizes of what was read are natural numbers, bounded by the limits of the source itself.
-- Timestamps in the tables are the texts that are stored, and are compared as texts.
--
-- What is not under the repository is an argument: the record Stdlib holds the case tables of
-- package unicode beyond ASCII and SHA-256, and the record Clock the texts of package time. No
-- theorem relies on a law of theirs, but for one that takes the text of an instant not to be empty.
-- The calls of package os that can fail are arguments too: `Faults` says for a run of the agent's
-- installation which fail, and `RecoveryDraws` what a snapshot draws. The hub's answers to an agent
-- are an argument of its session, and the order in which Go ranges over the map of launch values is
-- an argument of the rendering.
--
-- All recursion is on lists, but for loops that run on fuel: `digits` of Common/Texts, whose fuel is
-- one more than the number it prints, which has fewer digits than that; and in Runtime/Arguments the
-- replacement of a text and the loop over a template's variables, whose fuel is the length of the
-- text, of which each round removes a character at least.
--
-- Not modelled. The HTTP handlers but for the plan, the matching of a session's inventory, save
-- bindings and the rendering of their paths, the agent's inventory of ROMs
-- and its HTTP client, the configuration templates of packages, the check of the free space and the
-- writing of a package, the rest of the catalog (library, packages, imports, migrations), importer,
-- exporter, scanner, state backups, the web client and the Android client: most of these are
-- statements of SQL, requests or calls of the file system. Of the parts that are modelled, the
-- failures of the database itself are left out, and those of the file system outside the agent's
-- installation and the recovery of a build, as are symbolic links below the save repository's root;
-- strings are taken to be valid UTF-8.
pub mod Common
pub mod Paths
pub mod Multiplayer
pub mod Saves
pub mod Sync
pub mod Pairing
pub mod Bundler
pub mod Runtime
pub mod Agent
