-- ===== src/Tests.antt =====
-- Runs of the services at concrete inputs over the list client, one module for each part.
mod Sample
mod Friends
mod Moderation
mod SessionSample
mod Players
mod Invitations
mod Ratings
mod Creation
mod ChatSample
mod Chat
mod AuthSample
mod Auth
mod Accounts
mod Billing
mod Pages
