-- ===== src/Schemas.antt =====
-- tunstrap/schemas.py: the validated models of the input and the output, and the validators.
-- pydantic itself is outside: reading JSON into typed fields comes before these functions, and of
-- several errors the first one is returned.
pub mod Keys
pub mod HostPort
pub mod Specs
pub mod Node
pub mod Output
unfoldable pub use Keys.*
unfoldable pub use HostPort.*
unfoldable pub use Specs.*
unfoldable pub use Node.*
unfoldable pub use Output.*
