-- ===== src/Adaptive.antt =====
-- The adaptive campaign: the arms that it chooses from, and the reward of an epoch.
pub mod Templates
pub mod Reward
pub mod Policy
