-- ===== src/Examples.antt =====
-- The theorems at concrete inputs, and runs of the definitions.
mod Server
mod Routes
mod Sessions
mod Data
mod Texts
mod Pages
mod Saving
mod Filled
mod Editing
mod Uploads
