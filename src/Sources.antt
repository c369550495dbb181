-- ===== src/Sources.antt =====
-- What the sources of internal/service share: legs of a query, their merge by resource, and slugs.
pub mod Legs
pub mod Merging
pub mod Conversion
pub mod Found
pub mod Failures
pub mod Resolution
pub mod AccessTokens
pub mod Clauses
pub mod Slugs
pub mod MailingList
pub mod Meetings
pub mod Committee
pub mod Director
pub mod Access
pub mod Affiliations
pub mod CdpRoles
