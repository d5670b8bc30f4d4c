-- ===== src/Chrpc.antt =====
-- The remote procedure call library, chrpc.
pub mod Channel
pub mod ChannelLocal
pub mod ChannelLocal2
pub mod SerialType
pub mod ChannelFd
pub mod ChannelEcho
pub mod SerialValue
pub mod RpcServer
pub mod RpcClient
