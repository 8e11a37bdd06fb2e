-- ===== src/Dispatcher/Allow.antt =====
-- internal/dispatcher/allow.go: which target URLs may be contacted.
pub mod Address
use webhook_event_route.Prelude.{
  ℕ, Bool, true, false, not, ◌&&◌, ◌||◌, Option, none, some, List, [], ◌∷◌, if◌then◌else◌, Text,
  codes, text_eq,
}

-- The parts of a `url.URL` that are read.
pub record Url : Type 0 where
  pub scheme : Text
  pub hostname : Text

-- The packages net and net/url. An address is its bytes; an error of the resolver is `none`.
pub record Net : Type 0 where
  pub parse_url : Text → Option Url
  pub parse_ip : Text → Option Text
  pub lookup_ip : Text → Option (List Text)
  pub is_loopback : Text → Bool
  pub is_private : Text → Bool

module _ (net : Net) where
  abbrev first_address : Option (List Text) → Option Text
  first_address none = none
  first_address (some []) = none
  first_address (some (ip ∷ ips)) = some ip

  abbrev or_lookup : Option Text → Text → Option Text
  or_lookup (some ip) host = some ip
  or_lookup none host = first_address (net.lookup_ip host)

  -- The address that is checked: the host itself, or the first address that its name resolves to.
  unfoldable pub address_of : Text → Option Text
  address_of host = or_lookup (net.parse_ip host) host

  abbrev may_contact : Option Text → Bool → Bool → Bool
  may_contact none allow_private allow_loopback = false
  may_contact (some ip) allow_private allow_loopback =
      if net.is_loopback ip && not allow_loopback
      then false
      else if net.is_private ip && not allow_private
      then false
      else true

  abbrev is_http : Text → Bool
  is_http scheme = text_eq scheme (codes "http") || text_eq scheme (codes "https")

  -- `Allowed`, for a URL that parses.
  unfoldable pub allowed_url : Url → Bool → Bool → Bool
  unfolding address_of
  allowed_url u allow_private allow_loopback =
      if not (is_http u.scheme)
      then false
      else if text_eq u.hostname []
      then false
      else may_contact (address_of u.hostname) allow_private allow_loopback

  unfoldable pub allowed : Text → Bool → Bool → Bool
  unfolding allowed_url
  allowed rawurl allow_private allow_loopback = elim (net.parse_url rawurl) [
    | none ↦ false
    | some u ↦ allowed_url u allow_private allow_loopback
  ]
