-- ===== src/Driver.antt =====
-- What the program asks of code outside the repository: the calls of mongoose, the MongoDB driver,
-- the cache, the clock and the uuid library that it awaits, one constructor for each, and programs
-- as trees of such calls. How a call answers is a parameter.
pub mod Errors
pub mod Calls
pub mod Prog
pub mod Documents
pub mod Triples
pub mod Budget
pub mod Release
pub mod Interleaving
pub mod Memory
