-- ===== src/Channel.antt =====
-- internal/channel: what stands between the router and a channel's adapter.
pub mod Chunking
pub mod AllowList
pub mod Dispatcher
