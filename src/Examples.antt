-- ===== src/Examples.antt =====
-- The theorems at concrete inputs: time stamps, timers, transfers, datagrams, command lines and
-- reports of the kind that the program meets.
mod Times
mod Transfers
mod Datagrams
mod CommandLines
mod Reports
mod Sessions
mod Settings
mod Results
mod Descriptors
mod Intervals
mod Blocks
mod Uploads
mod Bursts
