-- ===== src/Jobqueue.antt =====
-- omkit/jobqueue: the envelope of a task, and the integration with the queue.
pub mod Envelope
pub mod Streaq
