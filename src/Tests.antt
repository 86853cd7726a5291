-- ===== src/Tests.antt =====
-- Runs of the theorems on concrete inputs, in modules named for the parts of the program.
mod GatewayCalls
mod GatewayTools
mod Conductors
mod Dispatches
mod Journals
mod Texts
mod Sessions
mod Contexts
mod Loops
mod WorkerEvents
mod Servers
