-- ===== src/Dates.antt =====
-- The calendar and day-counter codecs.
pub mod QuickBooksDate
pub mod SaDay
pub mod PostingDate
