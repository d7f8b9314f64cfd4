-- ===== src/Planner.antt =====
-- Planning of whole Workspace Edits (src/mutation/planner.rs).
pub mod Paths
pub mod FileSystem
pub mod Inspect
pub mod Uri
pub mod Run
pub mod Load
pub mod Subtree
pub mod Ends
pub mod Tree
pub mod Operations
pub mod Create
pub mod Rename
pub mod Delete
pub mod Effects
pub mod Renaming
pub mod Deleting
pub mod Creating
pub mod Scope
pub mod Sound
pub mod Manifest
pub mod Edit
