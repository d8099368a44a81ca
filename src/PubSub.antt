-- ===== src/PubSub.antt =====
-- internal/modules/pubsub: channels, subscriptions and messages.
pub mod Channel
pub mod State
pub mod Handlers
pub mod Subscriptions
pub mod Leaving
pub mod Clashes
pub mod Delivery
pub mod Validity
pub mod Steps
