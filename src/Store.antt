-- ===== src/Store.antt =====
-- The protocol store of supabase/functions/dtp-store: who reads a record, and which writes the state
-- machines of the record types allow.
pub mod Authz
pub mod Transitions
pub mod Integrity
pub mod Write
pub mod Keys
pub mod Reads
