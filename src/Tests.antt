-- ===== src/Tests.antt =====
-- Runs on concrete data: instances of the theorems, and small tests of the definitions.
mod Frames
mod Demos
mod Devices
mod Engines
mod Harnesses
mod Origins
mod Store
mod Words
