-- ===== src/Accounts.antt =====
-- app/auth.py and its accounts in app/models.py: users, organizations, memberships, invitations,
-- sessions and permissions.
pub mod Entities
pub mod Names
pub mod Permissions
pub mod Activity
pub mod Login
pub mod Invitations
pub mod Members
pub mod Sessions
pub mod Commands
pub mod Acceptances
