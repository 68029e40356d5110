-- ===== src/Examples.antt =====
-- Runs of the model on concrete inputs.
mod Instances
mod Text
mod ConnectionRuns
mod ProtocolRuns
mod SenderRuns
mod RegistryRuns
mod HandlerRuns
mod SessionRuns
mod DispatchRuns
mod PoolRuns
mod BroadcastRuns
mod BufferRuns
mod DebugRuns
mod ReadRuns
mod ServerRuns
