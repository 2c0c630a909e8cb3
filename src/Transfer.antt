-- ===== src/Transfer.antt =====
-- The queue of file transfers: the job and its status, the table of jobs, the workers.
pub mod Job
pub mod Table
pub mod Queue
