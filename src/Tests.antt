-- ===== src/Tests.antt =====
-- Runs of the definitions on concrete data, and instances of the theorems.
mod Channels
mod Connections
mod Servers
mod Startups
mod Directives
mod Preprocessors
mod Strings
mod Tables
mod Texts
