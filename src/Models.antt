-- ===== src/Models.antt =====
-- The rows of the database (`models.py` of each application), the configuration and the world that
-- the tasks act on. Instants are seconds, and a blank column is "" or `none`.
pub mod Sources
pub mod Analysis
pub mod Telegram
pub mod Advertising
pub mod World
