-- ===== src/Buffer.antt =====
-- src/journal/buffer.rs: indexed storage for records and scopes. The two halves of a `Buffer` have a
-- lock each; a call on a shared clone is one step under its lock.
pub mod Positions
pub mod Records
pub mod Scopes
use Scopes.Exit

pub record Buffer : Type 0 where
  pub records : Records.Records
  pub scopes : Scopes.Scopes

-- `Buffer::new`.
abbrev pub new_buffer : Buffer
new_buffer = record { records = Records.no_records; scopes = Scopes.no_scopes }

-- `Buffer::clear`.
unfoldable pub clear : Buffer → Buffer
clear b = record { records = Records.clear b.records; scopes = Exit.clear b.scopes }
