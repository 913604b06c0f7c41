-- ===== src/Tests.antt =====
-- Runs of the model on concrete inputs, among them those of fake/tests/test_path_redirect.cpp, and
-- for each result with conditions an input that meets them.
mod Guest
mod Hooks
mod Render
mod Threads
mod Bridge
mod Accessors
mod Vfs
mod Host
mod Launch
mod Display
mod Ipc
mod Frame
