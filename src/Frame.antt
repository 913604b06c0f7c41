-- ===== src/Frame.antt =====
-- The shared frame region between guest and host: common/include/frame_protocol.h,
-- fake/frame_producer.cpp and core/frame_channel.cpp of app/src/main/cpp.
pub mod Layout
pub mod Producer
pub mod Host
pub mod Seqlock
