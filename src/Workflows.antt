-- ===== src/Workflows.antt =====
-- app/api/routes/workflows.py: the routes that start, answer, end, retry and show the runs, and that
-- keep the workflow definitions.
pub mod Status
pub mod Stream
pub mod Display
pub mod Tasks
pub mod Routes
pub mod Restart
pub mod Definitions
pub mod Requests
