-- ===== src/User.antt =====
-- The user programs of the modified xv6: user/*.c.
pub mod Grep
pub mod Shell
