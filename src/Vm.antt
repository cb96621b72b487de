-- ===== src/Vm.antt =====
-- One microVM: clawpot-common/src/vm, clawpot-common/src/firecracker and
-- clawpot-server/src/vm.
pub mod Lifecycle
pub mod Config
pub mod Manager
pub mod Client
pub mod Registry
