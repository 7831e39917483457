-- ===== src/Samples.antt =====
-- Runs of the model on small inputs, and the theorems at inputs that meet their hypotheses.
mod Wildcards
mod Policies
mod Recoveries
mod Gateways
mod Prompts
mod Processes
mod Frames
mod Codecs
mod Metrics
mod Stores
