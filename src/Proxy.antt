-- ===== src/Proxy.antt =====
-- The proxies of clawpot-server/src/proxy, which all traffic of the VMs passes.
pub mod Auth
pub mod Dns
pub mod ProxyProtocol
pub mod Ca
pub mod Sni
pub mod Tls
pub mod Llm
pub mod Http
