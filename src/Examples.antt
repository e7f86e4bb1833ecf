-- ===== src/Examples.antt =====
-- Runs of the models at concrete inputs, and the theorems applied at inputs that meet their
-- conditions.
mod Transfers
mod Devices
mod Paths
mod Security
mod Browser
mod Server
mod Messages
mod Headers
mod Overlapping
mod Uploads
mod Connected
mod Client
mod Service
