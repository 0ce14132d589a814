-- ===== src/Webhooks.antt =====
-- services/workflow-service/app/webhooks: the delivery of webhooks.
pub mod Crypto
pub mod Delivery
pub mod UrlValidator
pub mod Subscriptions
