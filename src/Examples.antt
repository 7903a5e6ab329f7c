-- ===== src/Examples.antt =====
-- Tests by evaluation, and the theorems at concrete inputs.
mod Codecs
mod Commands
mod Mounting
mod Streams
mod Requests
mod Interleaving
mod Flights
mod Wire
mod Rounds
mod Workload
mod Sampling
mod Converting
mod CommandLine
mod Parsing
mod Sorting
mod Printing
mod Usage
mod Tables
mod Unmounting
