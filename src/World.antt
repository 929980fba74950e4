-- ===== src/World.antt =====
-- What the services work on: the rows of prisma/schema, the client that reads and writes them,
-- and the monad of a service method.
mod SportRows
mod AccountRows
mod ChatRows
mod BillingRows
mod PreferenceRows
mod Schema
mod PrismaClient
mod Monad
mod Laws
pub use SportRows.*
pub use AccountRows.*
pub use ChatRows.*
pub use BillingRows.*
pub use PreferenceRows.*
pub use Schema.*
pub use PrismaClient.*
pub use Monad.*
pub use Laws.*
