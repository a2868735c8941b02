-- ===== src/Assets.antt =====
-- NECROClient/Engine/Assets: the tile sets of the client's maps, and the text files that list them.
pub mod Fields
pub mod Tileset
