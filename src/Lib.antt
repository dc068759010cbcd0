-- ===== src/Lib.antt =====
-- The backend of MaterialMind, a local workspace for agent sessions: its engine of runs, its
-- tools and its policies, as far as they are modelled here. File paths are those of the
-- repository.
--
-- Engine.Hub: internal/engine/hub.go, the hub that numbers, retains and sends the events of a
-- run. A stream and a channel stand behind a pointer, which is an index into `heap` or
-- `channels`; `none` is a panic of the Go runtime. Numbers of events are int64, as bit patterns
-- below 2^64. `Operation` lists what may happen to a hub at its lock; the order in which Go
-- visits the subscribers of a stream is that of the list. A channel's capacity has no limit,
-- since the code uses constants for both of its terms.
--
-- Engine.Approvals: internal/engine/approvals.go, the requests that a run waits on and their
-- answers. Each function is one critical section of the lock of internal/engine/engine.go;
-- pointers are told apart by `address`; Go's `any` is a parameter with an injection of strings,
-- the store's lookup of a run is a parameter, and a published event is an entry of `published`.
-- One round of waitForNextToolApproval is `poll`, which answers `ok none` where the code goes to
-- sleep.
--
-- Engine.Compaction: internal/engine/context_compaction.go, which keeps a model request within
-- the window. Budget has the token arithmetic, Contents the contents and their safe boundaries,
-- Cut the choice of a cut (Cut.Suffix its first loop), Checkpoint what is kept in the session's
-- state, Request the compaction of a request, Request.Hooks what runs around a model call,
-- Sections the splitting of text for the summarizer. The state, JSON, SHA-256 and the summarizer
-- are parameters, the record `Environment`. The loop that moves a cut on gets one step for each
-- content; the loop over a section one for each byte, and each round takes at least one.
--
-- Engine.ToolBatch: splitMixedToolBatch of internal/engine/tool_batch.go, with the sub-agents'
-- names of internal/engine/subagents.go and FilterPreservedResponseFunctionCalls of
-- internal/agentmodel/openai_responses.go; JSON is the parameter `ContextCodec`.
--
-- Policy: internal/toolpolicy/policy.go, what tools may do unasked. Policy.Targets normalizes
-- addresses and confirms URLs, Policy.Permissions normalizes the permissions of a workspace. The
-- parser and printer of net/url and strings.ToLower are the parameter `UrlLibrary`;
-- slices.SortFunc is a sort by insertion, which gives the same list since no two rules are alike.
--
-- Workspace: internal/workspacetools/access.go and edit.go. Workspace.Paths is what they use of
-- path/filepath, on Unix; Workspace.Access resolves a path within the scope of a tool, with
-- FindRepositoryRoot of internal/toolpolicy/policy.go; Workspace.Edits applies text replacements;
-- Workspace.Changes checks the changes that are asked for; Workspace.Proposal makes the patch
-- from them; Workspace.EditFile is the whole call, with the answer of the user. The printer of
-- diffs, the kind of a parent directory and the sending of a request are parameters.
-- Workspace.Disk has the files under an os.Root and the operations on them, each of which a list
-- of faults may let fail; Workspace.Files the files of a patch and the check that they are
-- unchanged; Workspace.Patch the transaction, in its three loops, its rollback and its end. The
-- hash, the random names and the umask are the record `Host`. Nothing else writes to the files
-- during a transaction, and a failed write leaves the staged file empty.
--
-- Common: shared names, lists, association lists for Go maps, int64 arithmetic.
--
-- Not modelled: storage in SQLite, HTTP handlers, model providers, the processes of agents and
-- tools, and the web frontend.
pub mod Common
pub mod Engine
pub mod Policy
pub mod Workspace
