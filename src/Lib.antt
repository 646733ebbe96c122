-- ===== src/Lib.antt =====
-- A model of the core of wharf, a terminal SSH client, and what is proved of it.
--
-- The parts, and the files that model them:
--   * internal/sshx/ring.go, the scrollback of a session. Ring.antt has the circular buffer
--     (newRing, Write, Snapshot as `new_ring`, `write`, `snapshot`), Ring/Copy.antt Go's
--     copy, Ring/Tee.antt the tee that records output and mirrors it to the attached
--     terminal. A session is a sequence of the tee's methods, which hold one lock from start
--     to end.
--   * internal/store, the vault's content. Store.antt has the records of store.go and the
--     rules for names, ports and auth methods; Store/Edit.antt the edits of hosts and keys
--     (addHostTo, updateHostIn, deleteHostIn, addKeyTo, removeKeyIn, RemoveKey);
--     Store/Import.antt upsertImported; Store/Merge.antt all of merge.go; Store/Document.antt
--     decoding and encoding, of a vault and of a project; Store/Views.antt NewMemory, the
--     setters and the edits of a project. Store.Edit builds on Store, and Store.Merge on
--     both.
--   * internal/sync/engine.go, the sync of the vault with the backend. Sync.antt has the
--     engine's state and what it calls, Sync/Engine.antt syncLocked, pushLocked, Sync,
--     Resolve, CommitAdopt and SignOut, Sync/Lifecycle.antt Resume, Pair, Attach,
--     SetPassword, ChangePassword and Close. The payloads that it moves are those that the
--     store encodes, but it only compares their fingerprints and counts their hosts.
--   * internal/sync/projects.go, the shared projects of the engine. Projects.antt has their
--     part of the engine's state, Projects/Pass.antt SyncProjects, Projects/Change.antt
--     CreateProject, ResolveProject, PushProject and RemoveMember, Projects/Finalize.antt
--     FinalizeProjects, Projects/Cached.antt LoadCachedProjects. A map is a list of entries
--     in the order in which a loop would find them (Base/Dict.antt).
--   * internal/detachkey/detachkey.go, the two hotkeys of an attached session: DetachKey.antt
--     has the tables and Parse, ParseAgainst, Name, Byte and Names.
--   * internal/vault, the vault file. Vault.antt has the header of format.go with every
--     offset of the layout (marshal, parseHeader, validParams), Vault/Recovery.antt the
--     recovery code of recovery.go, Vault/Disk.antt the calls of the operating system that
--     vault.go and lock.go make (writeFileAtomic, acquireLock, InUse, Exists), each of which
--     may fail, and Vault/Life.antt the vault itself: Create, Open, OpenWithRecovery,
--     OpenPayload, InstallBlob, Save, ChangePassword, RegenerateRecovery, DeriveKey, Close. A
--     method takes the vault and the world, and returns both with its result.
--   * internal/sessd/proto.go, the frames between a client and a session host: Frames.antt
--     has writeFrame and readFrame. `read_frames` is a reader's loop, whose fuel is the
--     number of calls.
--   * internal/sshx/socks5.go, the SOCKS5 server of dynamic forwards: Socks.antt has
--     socks5Negotiate, socks5ReadAddr and socks5Reply, each step a function of the
--     connection. Base/Reader.antt has io.ReadFull, which the frames use too.
--   * internal/sshx/manager.go, the live sessions and forwards: Manager.antt has the two maps
--     with their orders, and each method that reads or changes them but CloseAll.
--   * internal/sshx/forward.go, a port forward from its recipe to its end: Forwards.antt has
--     normalize, StartForward, end, and the events on which the goroutines of a forward call
--     it.
--   * internal/remoteaccess/grant.go, what an agent may run: Grant.antt has `run` and Close
--     as a history of the steps of their goroutines, which interleave at the locks, at the
--     check of the context, at the audit events and at Exec.
--   * Base.antt and its children are what these share: lists with indices and keys, Go
--     strings, results of fallible calls, and integers.
--
-- A Go function is a function by clauses; one that changes its receiver returns the new one. Errors
-- are values with what the message quotes. A pointer that may be nil is an Option, int and int64
-- are ℤ where a negative value can occur and ℕ where none can. Sizes here stay far below the width
-- of int, so no wrap-around is written in these parts.
--
-- Loops are recursion on the list that they run over. The retry of a sync after a lost race is a
-- pass given a second pass, as `retryOn409` allows one. Fuel stands only in `read_frames` and in
-- `drain`, the inner loop of the recovery code, which takes five bits at a time: their number is
-- enough.
--
-- Parameters: the case and space tables of unicode beyond ASCII (`Unicode`), the JSON encoder
-- (`Json`), the key derivation and the ciphers (`Crypto`), the operating system's failures and
-- random bytes (`Os`), the IDs that newID returns, and all that the engine asks of the backend, the
-- session file and the crypto (`Env`, `ProjectsEnv`), whose answers may depend on every earlier
-- call.
--
-- Not modelled: the terminal interface (internal/ui), network, processes and terminals
-- (internal/sshx but the ring, SOCKS5, the manager's maps and the life of a forward, internal/sessd
-- but the frames, internal/proxydial, internal/api), the formats of other programs
-- (internal/termius, internal/sshcfg), the handshake and the sockets of internal/remoteaccess, the
-- project blobs and key boxes of internal/vault (project.go, box.go, hybrid.go), and of
-- internal/sync/projects.go the calls that only pass an answer of the backend on. Of the vault
-- file, that Close scrubs the key from memory is not modelled, nor is a loss of power, after which
-- a file system may have less than it was told to write.
pub mod Base
pub mod Ring
pub mod Store
pub mod Sync
pub mod DetachKey
pub mod Forwards
pub mod Frames
pub mod Grant
pub mod Manager
pub mod Projects
pub mod Socks
pub mod Vault
