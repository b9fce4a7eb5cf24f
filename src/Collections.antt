-- ===== src/Collections.antt =====
-- library/model_collections.c: the hash map and the list of the SDK's models.
pub mod ModelMap
pub mod ModelList
