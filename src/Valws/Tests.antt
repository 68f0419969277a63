-- ===== src/Valws/Tests.antt =====
-- Runs of valws379's parts, and the theorems at concrete inputs.
mod Tables
mod Windows
mod Lines
mod Programs
