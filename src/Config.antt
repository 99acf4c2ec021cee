-- ===== src/Config.antt =====
-- config.go, and the configuration of webhook.go, with their defaults.
use wavonyx.Prelude.{[], ℕ, ◌*◌, ◌^◌, Bool, false, Str, codes, is_empty, if◌then◌else◌}
use wavonyx.Prelude.Int.{ℤ, pos, is_nonpos, is_neg}
use wavonyx.Typing.Options
use wavonyx.Typing.Options.{Mode, default, second, millisecond}

pub record WebhookConfig : Type 0 where
  pub url : Str
  pub secret : Str
  pub timeout : ℤ
  pub retries : ℤ
  pub backoff_base : ℤ
  pub backoff_max : ℤ
  pub workers : ℤ
  pub queue_size : ℤ

pub record Config : Type 0 where
  pub data_dir : Str
  pub device_name : Str
  pub typing : Options.Config
  pub send_min_gap : ℤ
  pub send_queue : ℤ
  pub ring_size : ℤ
  pub max_media_bytes : ℤ
  pub include_from_me : Bool
  pub webhook : WebhookConfig

abbrev positive_or : ℤ → ℕ → ℤ
positive_or d default_value = if is_nonpos d then pos default_value else d

abbrev text_or : Str → Str → Str
text_or s default_value = if is_empty s then default_value else s

unfoldable pub webhook_with_defaults : WebhookConfig → WebhookConfig
webhook_with_defaults c = record c {
  timeout = positive_or c.timeout (10 * second);
  retries = positive_or c.retries 5;
  backoff_base = positive_or c.backoff_base (500 * millisecond);
  backoff_max = positive_or c.backoff_max (30 * second);
  workers = positive_or c.workers 1;
  queue_size = positive_or c.queue_size 1024;
}

abbrev pub zero_webhook : WebhookConfig
zero_webhook = record {
  url = [];
  secret = [];
  timeout = pos 0;
  retries = pos 0;
  backoff_base = pos 0;
  backoff_max = pos 0;
  workers = pos 0;
  queue_size = pos 0;
}

unfoldable pub default_config : Config
default_config = record {
  data_dir = codes "./data";
  device_name = codes "Wavonyx";
  typing = default;
  send_min_gap = pos second;
  send_queue = pos 100;
  ring_size = pos 200;
  max_media_bytes = pos (64 * 2 ^ 20);
  include_from_me = false;
  webhook = zero_webhook;
}

abbrev typing_or_default : Mode → Options.Config → Options.Config
typing_or_default Mode.unset c = default
typing_or_default _ c = c

unfoldable pub with_defaults : Config → Config
with_defaults c = record c {
  data_dir = text_or c.data_dir (codes "./data");
  device_name = text_or c.device_name (codes "Wavonyx");
  send_min_gap = if is_neg c.send_min_gap then pos 0 else c.send_min_gap;
  send_queue = positive_or c.send_queue 100;
  ring_size = positive_or c.ring_size 200;
  max_media_bytes = positive_or c.max_media_bytes (64 * 2 ^ 20);
  typing = typing_or_default c.typing.mode c.typing;
}
