-- ===== src/Tests.antt =====
-- Runs of the definitions on concrete inputs, and the theorems applied to some of them.
mod Vlan
mod Json
mod Ip
mod Routes
mod Rules
mod Policy
mod Template
mod Controller
mod Dns
mod Selection
