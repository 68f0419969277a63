-- ===== src/Valws.antt =====
-- Assignment03: valws379, the window set of a stream of memory references.
pub mod Common
pub mod LinkedList
pub mod Hashtable
pub mod Queue
pub mod WindowSet
pub mod Lines
pub mod Program
mod Tests
