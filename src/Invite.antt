-- ===== src/Invite.antt =====
pub mod Token
pub mod Store
pub mod Claim
