-- ===== src/Examples.antt =====
-- The theorems at concrete inputs, and tests of the definitions, one module for each component.
mod Oldmail
mod Pipeline
mod Disk
mod Paths
mod Serving
mod Requests
mod Locks
mod Lock
mod Fetching
mod Imapgrab
mod Cli
mod Folder
mod Ids
mod UniqueName
mod Email
mod Writeout
mod Download
mod Server
mod Connection
