-- ===== src/Outbox.antt =====
-- app/outbox: the handlers of the side effects, and the worker that drains the table.
pub mod Handlers
pub mod Worker
