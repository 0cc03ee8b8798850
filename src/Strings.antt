-- ===== src/Strings.antt =====
-- What the program uses of Go's packages `strings` and `unicode`, over texts as code points. Case
-- tables above ASCII are those of the Go release, so they come as the instance `Unicode`.
mod Case
mod Trim
mod Split
mod Search
mod Fields
mod Decimal
mod Hexadecimal
unfoldable pub use Case.*
unfoldable pub use Trim.*
unfoldable pub use Split.*
unfoldable pub use Search.*
unfoldable pub use Fields.*
unfoldable pub use Decimal.*
unfoldable pub use Hexadecimal.*
