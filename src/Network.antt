-- ===== src/Network.antt =====
-- src/network: what an answer of the pool means, and the difficulty that is accepted.
pub mod Submit
