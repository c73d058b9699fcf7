-- ===== src/Tests.antt =====
-- Concrete runs of the models.
mod Data
mod AccountRuns
mod RendezvousRuns
mod WolRuns
mod RelayRuns
mod UdpRuns
mod TcpRuns
mod ForwardingRuns
mod ServerRuns
mod SystemRuns
mod StartRuns
mod DesktopRuns
