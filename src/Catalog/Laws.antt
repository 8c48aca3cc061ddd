-- ===== src/Catalog/Laws.antt =====
-- What each method of the project catalog does (src/scs/storage/catalog.py).
pub mod Registering
pub mod Updating
pub mod Unregistering
