-- ===== src/Tests.antt =====
-- Concrete runs of the model, and the theorems at inputs that meet their hypotheses.
mod Hosts
mod Network
mod Vm
mod Grpc
mod Proxy
mod Jsons
mod Llm
mod Tls
mod Http
mod Events
mod Agent
mod Cli
