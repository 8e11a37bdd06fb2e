-- ===== src/Runtime.antt =====
-- What the program calls in Go's standard library and does not implement: floating point, printing,
-- regular expressions, the decoder of JSON, HMAC, and the order in which `range` visits a map.
use webhook_event_route.Prelude.{ℕ, ℤ, Bool, Option, List, Text, ◌↔◌, In}
use webhook_event_route.Domain.{Value}

pub record Runtime : Type 0 where
  -- strconv.FormatFloat(f, 'f', -1, 64), strconv.ParseFloat(s, 64) and the conversion of an integer.
  pub format_float : ℕ → Text
  pub parse_float : Text → Option ℕ
  pub float_of_int : ℤ → ℕ
  -- The comparisons a > b and a < b of two floats.
  pub float_gt : ℕ → ℕ → Bool
  pub float_lt : ℕ → ℕ → Bool
  -- fmt.Sprint
  pub sprint : Value → Text
  -- regexp.Compile; a compiled expression is its MatchString.
  pub compile : Text → Option (Text → Bool)
  -- json.Unmarshal into an `any`
  pub unmarshal : Text → Option Value
  -- The sum of crypto/hmac over SHA-256, of a key and a message.
  pub hmac_sha256 : Text → Text → Text
  -- strings.TrimSpace
  pub trim_space : Text → Text
  -- The entries of a map in the order in which `range` yields them.
  pub range : List (Text × Value) → List (Text × Value)

-- `range` visits each entry of the map and nothing else.
pub record VisitsEntries (lib : Runtime) : Type 0 where
  pub visits : (m : List (Text × Value)) (e : Text × Value) → In e (lib.range m) ↔ In e m
