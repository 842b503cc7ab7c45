-- ===== src/Services/Laws.antt =====
-- What the code relies on of the services: their documented behaviour, each as a record of laws
-- over a view of the service's state. A call may throw at any time; the laws say what has happened
-- when it has not, and what a failed call leaves alone.
mod Server
mod Table
mod People
unfoldable pub use Server.*
unfoldable pub use Table.*
unfoldable pub use People.*
