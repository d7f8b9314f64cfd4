-- ===== src/Lib.antt =====
-- lspctl: a command that runs language servers for a workspace and applies the edits that they propose.
-- This library models the parts of it that keep the state of a session and turn edits into new texts.
--
-- The parts, and where they are modelled:
-- - src/workspace.rs, the Document store of a session's owner. Documents holds its data, and
--   Documents.Store its methods (`refresh`, `refresh_open_documents`, `close_failed_document`,
--   `allocate_version`, `evict_to_limits` and the rest), each of which returns the store that it leaves
--   beside its result. Documents.Reading is `read_document` with its two rounds; what the file system
--   answers is an argument, and so are the crates url and sha2. `refresh` reads, then closes what cannot
--   be read, or enters the snapshot and evicts others, and returns the notifications for the server;
--   Documents.View says what the server makes of those.
-- - src/workspace.rs and src/mutation/planner.rs, positions: Position has the lines of a text, and the
--   byte offset of a protocol position in UTF-8 and in UTF-16 units.
-- - src/mutation/planner.rs, the planner of Workspace Edits. Edits has the parsing of one edit,
--   Edits.Render the sorting, the test for overlaps and the new text, and Edits.Plan the virtual workspace
--   and the planning of text edits on a loaded file. Planner.FileSystem and Planner.Inspect have what the planner asks
--   the file system (`inspect_resource`, `validate_existing_ancestors`, `directory_children`),
--   Planner.Load `path_from_file_uri` and `load_exact_resource`, Planner.Tree `load_resource_tree`,
--   Planner.Operations, Planner.Create, Planner.Rename and Planner.Delete the four operations,
--   Planner.Manifest the manifests before and after, and Planner.Edit the whole of
--   `plan_workspace_edit_with_document_preconditions`. Planner.Paths has the paths, Planner.Uri
--   `uri_contains_path_traversal`, and Planner.Run how a call ends. src/mutation/application.rs applies
--   the planned edits once more when it stages a plan: `apply_canonical_text_edits` is in Edits.Staging.
-- - src/canonical_value.rs, the bytes of a JSON value that are hashed for a digest: Canonical.
-- - src/mutation/state.rs, the chains of linked Receipts in the state store: Receipts has `receipt_chain`,
--   `receipt_chain_protected` and `expired_receipt_ids`, over what of the stored records decides, and
--   Receipts.Prune the decisions of `prune_state` on identifiers that are requested.
-- - src/workspace/diagnostics.rs, the cache of diagnostic reports: Diagnostics, Diagnostics.Cache (the
--   bounded cache and published reports), Diagnostics.Pull (full and unchanged reports), and
--   Diagnostics.Import.
-- - src/session/session_log.rs, the bounded log of a session: SessionLog.
-- - src/session/json_rpc_transport.rs, the reader of frames: Rpc has the loop over the header, Rpc.Header
--   its content length and content type, and Rpc.Frame the reading of one frame. The stream is a list of
--   chunks, and the parser of serde_json is a parameter. An error of the system ends a stream early.
-- - src/contract.rs: the value of a failure, in Failure, with the failures that src/workspace.rs builds.
--
-- Prelude has the shared names and lemmas, Text the bytes of Rust's texts and their UTF-8, Map the map of
-- the standard library that is ordered by its keys, and Json the values of serde_json. Examples holds
-- concrete runs.
--
-- Conventions. A text is the list of its bytes, and what Rust checks on a `str` is a Boolean test on
-- those. Words are those of a 64-bit target, where a conversion from `u64` to `usize` does not fail.
-- Additions that saturate are written out at the width of their type; a subtraction that saturates
-- is the one of the natural numbers. A panic is a value of its own. The loops of `evict_to_limits` and of
-- the cache's `store` run on fuel: one round for each entry and one more, which is enough since each round
-- removes an entry. The loop of `utf8_suffix_start` has one round for each byte and one more. The printed
-- size of a report or a log record is a parameter. A path is a text with a NUL before each component. The
-- loop of `receipt_chain` has a round for every identifier and one more. The
-- walk of `load_resource_tree` has fuel for every directory that a tree within the limits on entries and
-- depth can have. The server sees a Document's text, and the store a digest of it: that they agree rests on
-- a hypothesis, that a text read anew and the one before it have different digests where they differ. The
-- file system's answers to the planner do not change while it plans one edit, and
-- its variants for Windows and macOS are left out.
--
-- Not modelled: the writer of frames, the opening of the workspace's capability, the publication and
-- recovery of plans with the files of their state, configuration, queries, the asynchronous runtime of a
-- session, and the command line.
pub mod Prelude
pub mod Text
pub mod Map
pub mod Json
pub mod Failure
pub mod Documents
pub mod Position
pub mod Edits
pub mod Canonical
pub mod Planner
pub mod Receipts
pub mod Diagnostics
pub mod SessionLog
pub mod Rpc
pub mod Examples
