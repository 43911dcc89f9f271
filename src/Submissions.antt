-- ===== src/Submissions.antt =====
-- app/services/submission_service.py: the hardened path of one submission.
pub mod Validate
pub mod Create
