-- ===== src/Model.antt =====
-- The data that the services share: the enumerations of app/models/enums.py, the rows of the
-- SQLAlchemy models under app/models/, the database of all tables, and a request's session.
mod Enums
mod Accounts
mod Content
mod Tables
pub mod Queries
pub mod Session
pub use Enums.*
pub use Accounts.*
pub use Content.*
pub use Tables.*
