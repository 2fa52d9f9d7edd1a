-- ===== src/Database.antt =====
-- The database behind prisma: a table is the list of its rows. Reads by id and writes are
-- functions of the list (Table), and what the database chooses is a parameter (Queries).
pub mod Table
pub mod Queries
