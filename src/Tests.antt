-- ===== src/Tests.antt =====
-- The properties at concrete inputs, most of them from the test fixtures under tests/fixtures.
mod Cells
mod Devices
mod Requests
mod Carriers
mod Policies
mod Mutations
mod Registries
