-- ===== src/Proto2obj4pb/Templates.antt =====
-- The string templates of tools/proto2obj4pb.py, under their names there.
mod Header
mod Encode
mod Decode
mod Options
unfoldable pub use Header.*
unfoldable pub use Encode.*
unfoldable pub use Decode.*
unfoldable pub use Options.*
