-- ===== src/Tests.antt =====
-- Concrete surroundings of the program, runs of its code in them, and the theorems at concrete data.
mod Machine
mod Codec
mod Nets
mod Table
mod Postfix
mod Placing
mod Running
mod Serving
mod Connections
mod Commands
mod Locks
mod Placements
mod Conversations
mod Reloads
mod Variables
mod Scripts
mod Rules
mod Interleaving
mod Bytecodes
mod Snooping
mod Names
