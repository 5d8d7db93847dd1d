-- ===== src/Startup/Completed.antt =====
-- What validateConfig makes of the chains (seer/types.go).
use tenderduty_nos.Prelude.{
  String, Bool, true, not, ◌&&◌, ◌||◌, if◌then◌else◌, ◌≡◌, ◌≢◌, refl, sym, subst, ◌↔◌, ◌⊎◌, inl,
  inr, arith, some, List, [], ◌∷◌, Map, lookup, str_eq, str_eq→eq, ne_of_str_eq, Bool-cases, ℤ,
  negsuc, replicate, contains,
}
use tenderduty_nos.Config.{
  AlertConfig, ChainConfig, Config, DiscordConfig, PdConfig, TeleConfig, SlackConfig,
}
use tenderduty_nos.Startup.Validate.{
  with_flags, with_defaults, default_discord, default_slack, default_telegram, default_pagerduty,
  initial_blocks, not_connected_info, complete_chain, validate_chains, validate_config,
  is_oauth_like,
}

-- The two steps at one destination, by the deprecated switch `flag`.
step_discord : DiscordConfig → Bool → DiscordConfig → DiscordConfig
unfolding default_discord
step_discord c flag d =
    default_discord c (if flag && not d.enabled then record d { enabled = true } else d)

step_telegram : TeleConfig → Bool → TeleConfig → TeleConfig
unfolding default_telegram
step_telegram c flag t =
    default_telegram c (if flag && not t.enabled then record t { enabled = true } else t)

step_pagerduty : PdConfig → Bool → PdConfig → PdConfig
unfolding default_pagerduty
step_pagerduty c flag p =
    default_pagerduty c (if flag && not p.enabled then record p { enabled = true } else p)

step_discord-idempotent :
    (c : DiscordConfig) (flag : Bool) (d : DiscordConfig)
    → step_discord c flag (step_discord c flag d) ≡ step_discord c flag d
unfolding step_discord default_discord
step_discord-idempotent c flag d = ground arith

step_telegram-idempotent :
    (c : TeleConfig) (flag : Bool) (t : TeleConfig)
    → step_telegram c flag (step_telegram c flag t) ≡ step_telegram c flag t
unfolding step_telegram default_telegram
step_telegram-idempotent c flag t = ground arith

step_pagerduty-idempotent :
    (c : PdConfig) (flag : Bool) (p : PdConfig)
    → step_pagerduty c flag (step_pagerduty c flag p) ≡ step_pagerduty c flag p
unfolding step_pagerduty default_pagerduty
step_pagerduty-idempotent c flag p = ground arith

default_slack-idempotent :
    (c s : SlackConfig) → default_slack c (default_slack c s) ≡ default_slack c s
unfolding default_slack
default_slack-idempotent c s = ground arith

with_alerts-idempotent :
    (c : Config) (a : AlertConfig)
    → with_defaults c (with_flags (with_defaults c (with_flags a))) ≡ with_defaults c (with_flags a)
unfolding with_flags with_defaults step_discord step_telegram step_pagerduty
with_alerts-idempotent c a =
    rw
      (
        with_defaults,
        with_flags,
        step_discord-idempotent c.discord a.discord_alerts a.discord,
        step_telegram-idempotent c.telegram a.telegram_alerts a.telegram,
        step_pagerduty-idempotent c.pagerduty a.pagerduty_alerts a.pagerduty,
        default_slack-idempotent c.slack a.slack,
      )
      refl

initial_blocks-idempotent : (bs : List ℤ) → initial_blocks (initial_blocks bs) ≡ initial_blocks bs
unfolding initial_blocks
initial_blocks-idempotent [] = refl
initial_blocks-idempotent (b ∷ bs) = refl

or_key : String → String → String
or_key k name = if str_eq name "" then k else name

or_key-idempotent : (k name : String) → or_key k (or_key k name) ≡ or_key k name
unfolding or_key
or_key-idempotent k name = elim (Bool-cases (str_eq name "")) [
  | inr e ↦ rw (e, e) refl
  | inl e ↦ rw e (elim (Bool-cases (str_eq k "")) [ inl f ↦ rw f refl | inr f ↦ rw f refl ])
]

complete_chain-idempotent :
    (c : Config) (k : String) (v : ChainConfig)
    → complete_chain c k (complete_chain c k v) ≡ complete_chain c k v
unfolding complete_chain or_key
complete_chain-idempotent c k v =
    rw
      (
        complete_chain,
        initial_blocks-idempotent v.blocks_results,
        with_alerts-idempotent c v.alerts,
        or_key-idempotent k v.name,
      )
      refl

validate_chains-idempotent :
    (c : Config) (m : Map ChainConfig)
    → (validate_chains c (validate_chains c m).chains).chains ≡ (validate_chains c m).chains
unfolding validate_chains
validate_chains-idempotent c [] = refl
validate_chains-idempotent c ((k, v) ∷ rest) =
    rw (complete_chain-idempotent c k v, validate_chains-idempotent c rest) refl

-- A setting after its completion: the chain's own, or where that is blank the configuration's.
pub IsFilled : String → String → String → Type 0
IsFilled own default result = ((own ≢ "") × (result ≡ own)) ⊎ ((own ≡ "") × (result ≡ default))

str_eq-IsFilled :
    (own default result : String)
    → result ≡ (if str_eq own "" then default else own)
    → IsFilled own default result
unfolding IsFilled
str_eq-IsFilled own default result h = elim (Bool-cases (str_eq own "")) [
  | inl e ↦ inr (str_eq→eq own "" e, ground (arith, h, e))
  | inr e ↦ inl (ne_of_str_eq own "" e, ground (arith, h, e))
]

-- What a chain's alerts are after the check: every blank setting has its default, and a destination is on
-- where it was, or where its deprecated switch is.
pub record AlertsFilled (c : Config) (a a' : AlertConfig) : Type 0 where
  pub webhook : IsFilled a.discord.webhook c.discord.webhook a'.discord.webhook
  pub slack_webhook : IsFilled a.slack.webhook c.slack.webhook a'.slack.webhook
  pub telegram_key : IsFilled a.telegram.api_key c.telegram.api_key a'.telegram.api_key
  pub channel : IsFilled a.telegram.channel c.telegram.channel a'.telegram.channel
  pub pagerduty_key : IsFilled a.pagerduty.api_key c.pagerduty.api_key a'.pagerduty.api_key
  pub discord_mentions :
      a'.discord.mentions
      ≡ (if str_eq a.discord.webhook "" then c.discord.mentions else a.discord.mentions)
  pub slack_mentions :
      a'.slack.mentions ≡ (if str_eq a.slack.webhook "" then c.slack.mentions else a.slack.mentions)
  pub telegram_mentions :
      a'.telegram.mentions
      ≡ (if str_eq a.telegram.api_key "" then c.telegram.mentions else a.telegram.mentions)
  pub severity : a'.pagerduty.default_severity ≡ (
      if str_eq a.pagerduty.api_key ""
      then c.pagerduty.default_severity
      else a.pagerduty.default_severity)
  pub discord_on : a'.discord.enabled ≡ a.discord.enabled || a.discord_alerts
  pub telegram_on : a'.telegram.enabled ≡ a.telegram.enabled || a.telegram_alerts
  pub pagerduty_on : a'.pagerduty.enabled ≡ a.pagerduty.enabled || a.pagerduty_alerts
  pub slack_on : a'.slack.enabled ≡ a.slack.enabled

with_defaults-AlertsFilled :
    (c : Config) (a : AlertConfig) → AlertsFilled c a (with_defaults c (with_flags a))
unfolding with_flags with_defaults default_discord default_slack default_telegram default_pagerduty
with_defaults-AlertsFilled c a = record {
  webhook = str_eq-IsFilled _ _ _ (ground arith);
  slack_webhook = str_eq-IsFilled _ _ _ (ground arith);
  telegram_key = str_eq-IsFilled _ _ _ (ground arith);
  channel = str_eq-IsFilled _ _ _ (ground arith);
  pagerduty_key = str_eq-IsFilled _ _ _ (ground arith);
  discord_mentions = ground arith;
  slack_mentions = ground arith;
  telegram_mentions = ground arith;
  severity = ground arith;
  discord_on = ground arith;
  telegram_on = ground arith;
  pagerduty_on = ground arith;
  slack_on = ground arith;
}

-- A chain as the check leaves it: it has a name, a window of results, a state to show and its alerts.
pub record IsComplete (c : Config) (k : String) (v v' : ChainConfig) : Type 0 where
  pub name : IsFilled v.name k v'.name
  pub alerts : AlertsFilled c v.alerts v'.alerts
  pub info : v'.val_info ≡ some not_connected_info
  pub window :
      ((v.blocks_results ≢ []) × (v'.blocks_results ≡ v.blocks_results))
      ⊎ ((v.blocks_results ≡ []) × (v'.blocks_results ≡ replicate 512 (negsuc 0)))

initial_blocks-window :
    (bs : List ℤ)
    → ((bs ≢ []) × (initial_blocks bs ≡ bs))
      ⊎ ((bs ≡ []) × (initial_blocks bs ≡ replicate 512 (negsuc 0)))
unfolding initial_blocks
initial_blocks-window [] = inr (refl, refl)
initial_blocks-window (b ∷ bs) = inl ((λ e. cc), refl)

complete_chain-IsComplete :
    (c : Config) (k : String) (v : ChainConfig) → IsComplete c k v (complete_chain c k v)
unfolding complete_chain
complete_chain-IsComplete c k v = record {
  name = str_eq-IsFilled _ _ _ refl;
  alerts = with_defaults-AlertsFilled c v.alerts;
  info = refl;
  window = initial_blocks-window v.blocks_results;
}

validate_chains-lookup :
    (c : Config) (m : Map ChainConfig) (k : String) (v : ChainConfig)
    → lookup k m ≡ some v
    → (v' : ChainConfig) × (lookup k (validate_chains c m).chains ≡ some v') × IsComplete c k v v'
unfolding validate_chains lookup
validate_chains-lookup c [] k v h = absurd (ground (arith, h))
validate_chains-lookup c ((j, w) ∷ rest) k v h = elim (Bool-cases (str_eq k j)) [
  | inl e ↦
      let same : k ≡ j = str_eq→eq k j e in
      let here : w ≡ v = ground (arith, h, e) in
      (
        complete_chain c j w,
        rw e refl,
        subst (λ i. IsComplete c i v (complete_chain c j w)) (sym same)
            (subst (λ u. IsComplete c j u (complete_chain c j w)) here
              (complete_chain-IsComplete c j w)),
      )
  | inr e ↦ rw e (validate_chains-lookup c rest k v (ground (arith, h, e)))
]

-- The chains of a checked configuration are complete. A blank name, Discord or Slack webhook, Telegram
-- key or channel, or PagerDuty key becomes the configuration's (for the name, the chain's key), and one
-- that is set stays; mentions and PagerDuty's severity follow the webhook or key they stand with; a
-- destination is on where it was on or its deprecated switch is; the window of results is kept, or has
-- 512 empty places; the state to show says that nothing is connected. And to check the configuration
-- again changes none of its chains.
pub validate_chains-IsComplete :
    (c : Config) (m : Map ChainConfig) (k : String) (v : ChainConfig)
    → lookup k m ≡ some v
    → ((v' : ChainConfig) × (lookup k (validate_chains c m).chains ≡ some v') × IsComplete c k v v')
      × ((validate_chains c (validate_chains c m).chains).chains ≡ (validate_chains c m).chains)
validate_chains-IsComplete c m k v h =
    (validate_chains-lookup c m k v h, validate_chains-idempotent c m)

-- A configuration is refused exactly where the dashboard is on and its address is no URL, or where
-- PagerDuty is on and its key has a character that only an OAuth token has.
pub validate_config_iff :
    (bad_url : Bool) (c : Config)
    → ((validate_config bad_url c).0 ≡ true) ↔ (
        ((c.enable_dash ≡ true) × (bad_url ≡ true))
        ⊎ ((c.pagerduty.enabled ≡ true)
            × ((contains c.pagerduty.api_key "+" ≡ true)
                ⊎ ((contains c.pagerduty.api_key "_" ≡ true)
                    ⊎ (contains c.pagerduty.api_key "-" ≡ true)))))
unfolding validate_config is_oauth_like
validate_config_iff bad_url c = ground arith
