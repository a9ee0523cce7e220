-- ===== src/Setup.antt =====
-- apps/web/src/setup and apps/web/src/hooks/useSetupStatus.ts: the checks, the timers and the steps
-- of the setup wizard.
pub mod Decimal
pub mod Validation
pub mod ValidationLaws
pub mod Timers
pub mod Login
pub mod LoginLaws
pub mod Bot
pub mod BotLaws
pub mod Credentials
pub mod CredentialsLaws
pub mod FirstRule
pub mod FirstRuleLaws
pub mod Groups
pub mod GroupsLaws
pub mod Status
pub mod StatusLaws
mod Tests
