-- ===== src/Cli/Env.antt =====
-- cmd/wavonyx/main.go and client.go: what the environment configures. `env` is `os.Getenv`.
use wavonyx.Prelude.{
  ℕ, ◌^◌, Bool, ◌||◌, [], ◌∷◌, ◌++◌, Str, codes, str_eq, starts_with, is_empty, reverse, trim_space,
  if◌then◌else◌,
}
use wavonyx.Prelude.Int.{ℤ, pos, ◌*ℤ◌, wrap64}
use wavonyx.Errors.{outside, Result, ok, err, ◌>>=◌}
use wavonyx.Config.{Config, default_config}
use wavonyx.Typing.Options.{Float, Mode, off, constant, natural, other}
use wavonyx.Cli.Args.{one_of}
use wavonyx.Server.Upload.{has_infix}

abbrev pub Env : Type 0
Env = Str → Str

-- `getenv`
unfoldable pub getenv : Env → Str → Str → Str
getenv env key default = let v = env key in if is_empty v then default else v

-- The standard library's parsers, with the text of their error, and its changes of case.
pub record Parsers : Type 0 where
  pub parse_duration : Str → Result ℤ
  pub atoi : Str → Result ℤ
  pub parse_float : Str → Result Float
  pub parse_int64 : Str → Result ℤ
  pub to_upper : Str → Str
  pub to_lower : Str → Str

abbrev has_suffix : Str → Str → Bool
has_suffix s suffix = starts_with (reverse s) (reverse suffix)

-- `strings.TrimSuffix`, where the suffix is there: its length is dropped from the end.
abbrev drop_end : Str → Str → Str
drop_end s [] = s
drop_end [] (c ∷ p) = []
drop_end (d ∷ s) (c ∷ p) = drop_end s p

abbrev pub trim_suffix : Str → Str → Str
trim_suffix s suffix = reverse (drop_end (reverse s) suffix)

-- The multiplier and the number's text.
abbrev pub size_parts : Str → ℕ × Str
size_parts s =
    if has_suffix s (codes "GB")
    then (2 ^ 30, trim_suffix s (codes "GB"))
    else if has_suffix s (codes "MB")
    then (2 ^ 20, trim_suffix s (codes "MB"))
    else if has_suffix s (codes "KB")
    then (2 ^ 10, trim_suffix s (codes "KB"))
    else if has_suffix s (codes "B")
    then (1, trim_suffix s (codes "B"))
    else (1, s)

abbrev pub text_from : Env → Str → Str → Str
text_from env key old = getenv env key old

-- `typing.Mode(v)`
abbrev pub mode_of : Str → Mode
mode_of v =
    if str_eq v (codes "off")
    then off
    else if str_eq v (codes "constant")
    then constant
    else if str_eq v (codes "natural")
    then natural
    else other v

abbrev pub mode_from : Env → Mode → Mode
mode_from env old =
    let v = env (codes "WAVONYX_TYPING_MODE") in if is_empty v then old else mode_of v

-- `serveConfig`
pub record ServeConfig : Type 0 where
  pub cfg : Config
  pub addr : Str
  pub api_key : Str

module _ (lib : Parsers) where
  -- `parseSize`; the product wraps.
  unfoldable pub parse_size : Str → Result ℤ
  parse_size s =
      let (mult, digits) = size_parts (lib.to_upper (trim_space s)) in
      (lib.parse_int64 (trim_space digits) >>= λ n. ok (wrap64 (n *ℤ pos mult)))

  -- `fmt.Errorf("invalid %s: %w", key, err)`, of an error that is known by its text.
  abbrev pub invalid_key {ℓ} : {A : Type ℓ} → Str → Result A → Result A
  invalid_key key (ok a) = ok a
  invalid_key key (err (outside e)) = err (outside (codes "invalid " ++ key ++ codes ": " ++ e))
  invalid_key key (err e) = err e

  -- `setDuration`, `setInt`, `setFloat` and `setSize`: `old` stays where the variable is not set.
  unfoldable pub set_by : {A : Type 0} → (Str → Result A) → Env → Str → A → Result A
  set_by parse env key old =
      let v = env key in if is_empty v then ok old else invalid_key key (parse v)

  -- `envBool`
  unfoldable pub env_bool : Env → Str → Bool
  env_bool env key =
      one_of (codes "1" ∷ codes "true" ∷ codes "yes" ∷ codes "on" ∷ []) (lib.to_lower (env key))

  abbrev set_duration : Env → Str → ℤ → Result ℤ
  set_duration = set_by lib.parse_duration

  -- `configFromEnv`
  unfoldable pub config_from_env : Env → Result ServeConfig
  unfolding set_by env_bool getenv
  config_from_env env = do
    per_char ← set_duration env (codes "WAVONYX_TYPING_PER_CHAR") default_config.typing.per_char
    min_cps ←
        set_by lib.parse_float env (codes "WAVONYX_TYPING_MIN_CPS") default_config.typing.min_cps
    max_cps ←
        set_by lib.parse_float env (codes "WAVONYX_TYPING_MAX_CPS") default_config.typing.max_cps
    min_total ← set_duration env (codes "WAVONYX_TYPING_MIN_TOTAL") default_config.typing.min_total
    max_total ← set_duration env (codes "WAVONYX_TYPING_MAX_TOTAL") default_config.typing.max_total
    min_gap ← set_duration env (codes "WAVONYX_SEND_MIN_GAP") default_config.send_min_gap
    queue ← set_by lib.atoi env (codes "WAVONYX_SEND_QUEUE") default_config.send_queue
    ring ← set_by lib.atoi env (codes "WAVONYX_RING_SIZE") default_config.ring_size
    media ← set_by parse_size env (codes "WAVONYX_MAX_MEDIA_BYTES") default_config.max_media_bytes
    timeout ← set_duration env (codes "WAVONYX_WEBHOOK_TIMEOUT") default_config.webhook.timeout
    retries ← set_by lib.atoi env (codes "WAVONYX_WEBHOOK_RETRIES") default_config.webhook.retries
    workers ← set_by lib.atoi env (codes "WAVONYX_WEBHOOK_WORKERS") default_config.webhook.workers
    ok (record {
      cfg = record default_config {
        data_dir = text_from env (codes "WAVONYX_DATA_DIR") default_config.data_dir;
        device_name = text_from env (codes "WAVONYX_DEVICE_NAME") default_config.device_name;
        typing = record {
          mode = mode_from env default_config.typing.mode;
          per_char = per_char;
          min_cps = min_cps;
          max_cps = max_cps;
          min_total = min_total;
          max_total = max_total;
        };
        send_min_gap = min_gap;
        send_queue = queue;
        ring_size = ring;
        max_media_bytes = media;
        include_from_me = env_bool env (codes "WAVONYX_WEBHOOK_INCLUDE_FROM_ME");
        webhook = record default_config.webhook {
          url = env (codes "WAVONYX_WEBHOOK_URL");
          secret = env (codes "WAVONYX_WEBHOOK_SECRET");
          timeout = timeout;
          retries = retries;
          workers = workers;
        };
      };
      addr = getenv env (codes "WAVONYX_ADDR") (codes ":9900");
      api_key = env (codes "WAVONYX_API_KEY");
    })

-- `slog.Level`
pub data Level : Type 0 where
  debug info warn error : Level

-- `parseLogLevel`, of the text in lower case.
unfoldable pub parse_log_level : Str → Level
parse_log_level s =
    if str_eq s (codes "debug")
    then debug
    else if one_of (codes "warn" ∷ codes "warning" ∷ []) s
    then warn
    else if str_eq s (codes "error")
    then error
    else info

-- `net.SplitHostPort` and `net.JoinHostPort`
pub record HostPort : Type 0 where
  pub split : Str → Result (Str × Str)
  pub join : Str → Str → Str

abbrev pub local_host : Str → Str
local_host host =
    if is_empty host || str_eq host (codes "0.0.0.0") || str_eq host (codes "::")
    then codes "127.0.0.1"
    else host

abbrev pub http_url : HostPort → Result (Str × Str) → Str
http_url net (err e) = []
http_url net (ok (host, port)) = codes "http://" ++ net.join (local_host host) port

abbrev pub or_else : Str → Str → Str
or_else s t = if is_empty s then t else s

abbrev pub from_addr : HostPort → Str → Str
from_addr net addr = if is_empty addr then [] else http_url net (net.split addr)

-- `strings.TrimRight(raw, "/")`
unfoldable pub drop_slashes : Str → Str
drop_slashes [] = []
drop_slashes (c ∷ s) = if str_eq (c ∷ []) (codes "/") then drop_slashes s else c ∷ s

abbrev pub with_scheme : Str → Str
with_scheme raw = if has_infix raw (codes "://") then raw else codes "http://" ++ raw

-- `resolveBaseURL`
unfoldable pub resolve_base_url : HostPort → Env → Str → Str
unfolding drop_slashes has_infix
resolve_base_url net env flag_url =
    let raw =
      or_else (or_else flag_url (env (codes "WAVONYX_URL")))
        (or_else (from_addr net (env (codes "WAVONYX_ADDR"))) (codes "http://127.0.0.1:9900")) in
    reverse (drop_slashes (reverse (with_scheme raw)))

-- The URL that `runHealthcheck` asks.
unfoldable pub health_url : HostPort → Env → Result Str
unfolding getenv
health_url net env = do
  (host, port) ← net.split (getenv env (codes "WAVONYX_ADDR") (codes ":9900"))
  ok (codes "http://" ++ net.join (local_host host) port ++ codes "/health")
