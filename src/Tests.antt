-- ===== src/Tests.antt =====
-- The properties at concrete inputs, and runs of the definitions on small examples.
mod Samples
mod Modifiers
mod Remaps
mod Daemons
mod Runtimes
mod Browsers
mod Devices
mod Parsers
mod PlainNom
mod Scripts
mod Systems
mod PlainLaws
