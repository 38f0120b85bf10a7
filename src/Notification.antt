-- ===== src/Notification.antt =====
-- mu_strategy/notifications: the reminders, the outbox that keeps them and their delivery by mail.
pub mod Observation
pub mod Event
pub mod Outbox
