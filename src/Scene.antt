-- ===== src/Scene.antt =====
-- scene.py: the state of the picture and the commands that draw a frame.
pub mod Layout
pub mod Depth
pub mod Rows
pub mod State
pub mod Layers
pub mod Draw
pub mod Pulse
pub mod Return
pub mod Cover
pub mod Tree
pub mod Blocks
pub mod Waiting
pub mod Listing
pub mod Arrival
pub mod Fading
pub mod Below
pub mod Userland
pub mod Descent
