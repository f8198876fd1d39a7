-- ===== src/Proto2bin/Templates.antt =====
-- The string templates of tools/proto2bin.py, under their names there.
mod Header
mod Encode
mod Decode
unfoldable pub use Header.*
unfoldable pub use Encode.*
unfoldable pub use Decode.*
