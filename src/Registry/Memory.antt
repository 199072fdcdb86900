-- ===== src/Registry/Memory.antt =====
-- A store in memory and codecs that meet the laws of `Registry.Laws`, at which the registry's methods
-- run and its theorems are applied. It stands for no code of the repository: what it gives for
-- indradb, serde_json and semver is one choice that shows the laws can hold together.
pub mod Store
pub mod Instance
pub mod Graph
