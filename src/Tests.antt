-- ===== src/Tests.antt =====
-- The properties at concrete inputs, and runs of the code.
mod Updates
mod Policies
mod Days
mod Shown
mod Started
mod Lists
mod Pages
mod Dialogs
mod Views
