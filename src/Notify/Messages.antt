-- ===== src/Notify/Messages.antt =====
-- The payloads of seer/alert.go. A message of one attachment or embed holds it directly in a list,
-- as the source does.
use tenderduty_nos.Prelude.{ℕ, String, ◌<>◌, if◌then◌else◌, List, [], ◌∷◌}
use tenderduty_nos.AlarmCache.{AlertMsg}

-- `BrandName` of seer/identity.go.
abbrev pub brand_name : String
brand_name = "NosNode🔮"

pub record Attachment : Type 0 where
  pub text : String
  pub color : String
  pub title : String
  pub title_link : String

pub record SlackMessage : Type 0 where
  pub text : String
  pub attachments : List Attachment

unfoldable pub build_slack_message : AlertMsg → SlackMessage
build_slack_message msg =
    let prefix = if msg.resolved then "💜 Resolved: " else "🚨 ALERT: " in
    record {
      text = if msg.resolved then "OK: " <> msg.message else msg.message;
      attachments =
          record {
            text = "";
            color = if msg.resolved then "good" else "danger";
            title =
                brand_name
                <> (" " <> (prefix <> (" " <> (msg.chain <> (" " <> msg.slk_mentions)))));
            title_link = "";
          }
          ∷ [];
    }

pub record DiscordEmbed : Type 0 where
  pub title : String
  pub url : String
  pub description : String
  pub color : ℕ

pub record DiscordMessage : Type 0 where
  pub username : String
  pub avatar_url : String
  pub content : String
  pub embeds : List DiscordEmbed

unfoldable pub build_discord_message : AlertMsg → DiscordMessage
build_discord_message msg =
    let prefix = if msg.resolved then "💜 Resolved: " else "🚨 ALERT: " in
    record {
      username = brand_name;
      avatar_url = "";
      content = prefix <> msg.chain;
      embeds = record { title = ""; url = ""; description = msg.message; color = 0 } ∷ [];
    }

unfoldable pub build_telegram_text : AlertMsg → String
build_telegram_text msg =
    let prefix = if msg.resolved then "💜 Resolved: " else "🚨 ALERT: " in
    brand_name <> (" " <> (msg.chain <> (": " <> (prefix <> (" - " <> msg.message)))))

-- The fields of pagerduty.V2Event that the source sets.
pub record PagerDutyEvent : Type 0 where
  pub routing_key : String
  pub action : String
  pub dedup_key : String
  pub summary : String
  pub source : String
  pub severity : String

unfoldable pub build_pager_duty_event : AlertMsg → PagerDutyEvent
build_pager_duty_event msg = record {
  routing_key = msg.key;
  action = if msg.resolved then "resolve" else "trigger";
  dedup_key = msg.unique_id;
  summary = brand_name <> (": " <> msg.message);
  source = msg.unique_id;
  severity = msg.severity;
}
