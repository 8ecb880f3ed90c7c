-- ===== src/Tests.antt =====
-- Examples of the theorems, and runs of the definitions.
mod Strings
mod Lists
mod Tokens
mod Tables
mod Documents
mod Parsing
mod States
mod Streams
