-- ===== src/Examples.antt =====
-- Concrete runs of the program's calls.
mod Data
mod Downloads
mod Searches
mod Packets
mod Answers
mod Parsers
mod Calls
mod Objects
mod Callers
mod Photos
mod Connections
