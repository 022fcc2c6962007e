-- ===== src/Tests.antt =====
-- Runs of the model on small inputs, and each theorem with conditions applied at an input that meets
-- them.
mod Heap
mod Buffers
mod Links
mod Kvstores
mod Fdes
mod Servers
mod Texts
mod Clients
mod Sets
mod Selects
mod Responses
mod Connects
mod Mtcps
mod Pools
mod Linkeds
mod Filters
mod Configs
mod Decoders
mod Checkers
