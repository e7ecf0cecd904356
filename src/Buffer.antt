-- ===== src/Buffer.antt =====
-- RNS/Buffer.py: streams of bytes over a channel. A message carries a chunk of a stream, the
-- reader keeps what has arrived, the writer cuts what it is given into chunks and compresses them.
pub mod Stream
pub mod Reader
pub mod Writer
mod Tests
