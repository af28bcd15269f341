-- ===== src/Domain.antt =====
-- packages/lightning/lib/domain: values that the messages carry.
pub mod ShortChannelId
