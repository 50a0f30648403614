-- ===== src/Schema.antt =====
-- The data that prisma/schema.prisma declares, as far as the modelled code reads or writes it.
-- Identifiers are numbers: the code only compares them and puts them into keys. Times are in ms.
pub mod Status
pub mod Rows
