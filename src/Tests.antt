-- ===== src/Tests.antt =====
-- The theorems at concrete inputs, and runs of the model.
mod Machines
mod Integers
mod Variables
mod Keys
mod Linked
mod Contexts
mod Builds
mod Slices
mod Conversions
mod Frames
mod Assertions
mod Hosts
mod Programs
mod Workflows
mod Texts
mod Externals
mod Reflection
mod Tables
