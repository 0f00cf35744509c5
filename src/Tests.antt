-- ===== src/Tests.antt =====
-- The theorems at concrete inputs, and runs of the model.
mod Sample
mod Messages
mod KeyList
mod Serving
mod Talking
mod Decrypting
mod Queueing
mod Naming
mod Reading
mod Working
mod Starting
