-- ===== src/Config/Load.antt =====
-- internal/config/config.go, `Load`: the settings from the environment of the process.
pub mod Usable
use webhook_event_route.Prelude.{
  ℕ, ◌+◌, ◌-◌, ◌*◌, ◌%◌, ◌∷◌, Bool, false, Option, none, some, [], ltb, if◌then◌else◌, ℤ, pos,
  negsuc, is_nonpositive, Text, codes,
}
use webhook_event_route.Strconv.{atoi, parse_bool}
use webhook_event_route.Config.{Config}

-- The fields with the sign that they have in the source.
pub record Settings : Type 0 where
  pub addr : Text
  pub db_path : Text
  pub max_payload : ℤ
  pub max_retries : ℤ
  pub retry_base : ℤ
  pub forward_timeout : ℤ
  pub allow_private : Bool
  pub allow_loopback : Bool
  pub replay_window : ℤ

pub data Loaded : Type 0 where
  refused : Text → Loaded
  loaded : Settings → Loaded

abbrev pub two64 : ℕ
two64 = 18446744073709551616

-- The int64 with this remainder modulo 2 ^ 64.
abbrev pub signed : ℕ → ℤ
signed r = if ltb r 9223372036854775808 then pos r else negsuc (two64 - 1 - r)

-- time.Duration(n) * unit, which wraps; the unit is positive.
unfoldable pub duration_of : ℕ → ℤ → ℤ
duration_of unit (pos n) = signed (n * unit % two64)
duration_of unit (negsuc n) = signed (two64 - 1 - ((n + 1) * unit - 1) % two64)

abbrev pub text_or : Text → Option Text → Text
text_or default none = default
text_or default (some []) = default
text_or default (some (c ∷ s)) = c ∷ s

abbrev pub int_or : ℤ → Option ℤ → ℤ
int_or default none = default
int_or default (some n) = n

abbrev pub bool_or : Bool → Option Bool → Bool
bool_or default none = default
bool_or default (some b) = b

-- os.LookupEnv is the argument.
module _ (lookup_env : Text → Option Text) where
  unfoldable pub get_env : Text → Text → Text
  get_env k default = text_or default (lookup_env k)

  unfoldable pub get_env_int64 : Text → ℤ → ℤ
  unfolding get_env atoi
  get_env_int64 k default = elim (get_env k []) [
    | [] ↦ default
    | c ∷ s ↦ int_or default (atoi (c ∷ s))
  ]

  -- An int has 64 bits.
  unfoldable pub get_env_int : Text → ℤ → ℤ
  unfolding get_env_int64
  get_env_int k default = get_env_int64 k default

  unfoldable pub get_env_bool : Text → Bool → Bool
  unfolding get_env parse_bool
  get_env_bool k default = elim (get_env k []) [
    | [] ↦ default
    | c ∷ s ↦ bool_or default (parse_bool (c ∷ s))
  ]

  -- The settings before they are checked.
  unfoldable pub read_settings : Settings
  unfolding get_env_int get_env_bool duration_of
  read_settings = record {
    addr = get_env (codes "HTTP_ADDR") (codes ":8080");
    db_path = get_env (codes "DB_PATH") (codes "./data/router.db");
    max_payload = get_env_int64 (codes "MAX_PAYLOAD") (pos 1048576);
    max_retries = get_env_int (codes "MAX_RETRIES") (pos 5);
    retry_base = duration_of 1000000 (get_env_int64 (codes "RETRY_BASE_MS") (pos 1000));
    forward_timeout = duration_of 1000000 (get_env_int64 (codes "FORWARD_TIMEOUT_MS") (pos 5000));
    allow_private = get_env_bool (codes "ALLOW_PRIVATE_TARGET") false;
    allow_loopback = get_env_bool (codes "ALLOW_LOOPBACK_TARGET") false;
    replay_window = duration_of 1000000000 (get_env_int64 (codes "REPLAY_WINDOW_SEC") (pos 300));
  }

-- The checks, in order.
unfoldable pub check_settings : Settings → Loaded
check_settings s = elim s.db_path [
  | [] ↦ refused (codes "DB_PATH must not be empty")
  | c ∷ path ↦
      if is_nonpositive s.max_payload
      then refused (codes "MAX_PAYLOAD must be positive")
      else if is_nonpositive s.max_retries
      then refused (codes "MAX_RETRIES must be positive")
      else if is_nonpositive s.forward_timeout
      then refused (codes "FORWARD_TIMEOUT_MS must be positive")
      else if is_nonpositive s.replay_window
      then refused (codes "REPLAY_WINDOW_SEC must be positive")
      else loaded s
]

unfoldable pub load : (Text → Option Text) → Loaded
unfolding read_settings check_settings
load lookup_env = check_settings (read_settings lookup_env)

-- A number that is not negative.
abbrev pub natural : ℤ → ℕ
natural (pos n) = n
natural (negsuc n) = 0

-- The settings as the other parts read them, for those that are not negative.
abbrev pub config_of : Settings → Config
config_of s = record {
  addr = s.addr;
  db_path = s.db_path;
  max_payload = natural s.max_payload;
  max_retries = natural s.max_retries;
  retry_base = natural s.retry_base;
  forward_timeout = natural s.forward_timeout;
  allow_private = s.allow_private;
  allow_loopback = s.allow_loopback;
  replay_window = natural s.replay_window;
}
