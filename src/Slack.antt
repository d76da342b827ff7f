-- ===== src/Slack.antt =====
-- slackkit/: the projection of the event log to Slack.
pub mod Outbox
