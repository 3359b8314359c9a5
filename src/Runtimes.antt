-- ===== src/Runtimes.antt =====
-- runtime/: what runs a task, over a container engine or the operating system.
pub mod Host
pub mod Sides
pub mod Tidy
pub mod Plain
pub mod Docker
pub mod Podman
pub mod Shell
pub mod Mounts
