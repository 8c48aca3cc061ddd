-- ===== src/Catalog.antt =====
-- The project catalog (src/scs/storage/catalog.py, src/scs/storage/models.py).
pub mod Record
pub mod Store
pub mod Orderly
pub mod Typing
pub mod Registered
pub mod Sound
pub mod Calls
pub mod Lifetime
pub mod Laws
mod Tests
