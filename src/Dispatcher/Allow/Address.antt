-- ===== src/Dispatcher/Allow/Address.antt =====
-- What `Allowed` lets through.
use mathlib.Core.Path.{subst}
use webhook_event_route.Prelude.{
  ◌≡◌, ◌≢◌, refl, ◌↔◌, ◌⊎◌, Bool, true, false, Option, none, some, [], arith, Text, codes,
  text_eq_iff,
}
use webhook_event_route.Dispatcher.Allow.{Url, Net, address_of, may_contact, allowed_url, allowed}

module _ (net : Net) (allow_private allow_loopback : Bool) where
  -- An address that may be contacted under the two settings.
  abbrev pub IsOpen : Text → Type 0
  IsOpen ip =
      (net.is_loopback ip ≡ true → allow_loopback ≡ true)
      × (net.is_private ip ≡ true → allow_private ≡ true)

  contact_open :
      (ip : Text) → IsOpen ip → may_contact net (some ip) allow_private allow_loopback ≡ true
  contact_open ip (loop, priv) = ground arith

  may_contact_iff :
      (o : Option Text)
      → (may_contact net o allow_private allow_loopback ≡ true)
        ↔ ((ip : Text) × (o ≡ some ip) × IsOpen ip)
  may_contact_iff none = (λ e. cc, λ (ip, e, _). cc)
  may_contact_iff (some ip) = (
    λ h. (ip, refl, ground arith),
    λ (ip', e, opened). let p : ip' ≡ ip = cc in contact_open ip (subst IsOpen p opened),
  )

  -- What is asked of a parsed URL and of the address that is checked for its host.
  abbrev pub MayContact : Url → Text → Type 0
  MayContact u ip =
      ((u.scheme ≡ codes "http") ⊎ (u.scheme ≡ codes "https"))
      × (u.hostname ≢ [])
      × (address_of net u.hostname ≡ some ip)
      × IsOpen ip

  allowed_url_iff :
      (u : Url)
      → (allowed_url net u allow_private allow_loopback ≡ true) ↔ ((ip : Text) × MayContact u ip)
  unfolding allowed_url
  allowed_url_iff u = (
    λ h.
        let (http, named, contact) = passed h in
        let (ip, e, opened) = (may_contact_iff (address_of net u.hostname)).0 contact in
        (ip, (http, named, e, opened)),
    λ (ip, (http, named, e, opened)).
        pass http named ((may_contact_iff (address_of net u.hostname)).1 (ip, e, opened)),
  )
    where
      passed :
          allowed_url net u allow_private allow_loopback ≡ true
          → ((u.scheme ≡ codes "http") ⊎ (u.scheme ≡ codes "https"))
            × (u.hostname ≢ [])
            × (may_contact net (address_of net u.hostname) allow_private allow_loopback ≡ true)
      passed h = ground (
        arith,
        text_eq_iff u.scheme (codes "http"),
        text_eq_iff u.scheme (codes "https"),
        text_eq_iff u.hostname [],
      )

      pass :
          ((u.scheme ≡ codes "http") ⊎ (u.scheme ≡ codes "https"))
          → (u.hostname ≢ [])
          → may_contact net (address_of net u.hostname) allow_private allow_loopback ≡ true
          → allowed_url net u allow_private allow_loopback ≡ true
      pass http named contact = ground (
        arith,
        text_eq_iff u.scheme (codes "http"),
        text_eq_iff u.scheme (codes "https"),
        text_eq_iff u.hostname [],
      )

  parsed_iff :
      (o : Option Url)
      → (elim o [ none ↦ false | some u ↦ allowed_url net u allow_private allow_loopback ] ≡ true)
        ↔ ((u : Url) × (ip : Text) × (o ≡ some u) × MayContact u ip)
  parsed_iff none = (λ e. cc, λ (u, ip, e, _). cc)
  parsed_iff (some v) = (
    λ h. let (ip, c) = (allowed_url_iff v).0 h in (v, ip, refl, c),
    λ (u, ip, e, c).
        let p : u ≡ v = cc in (allowed_url_iff v).1 (ip, subst (λ x. MayContact x ip) p c),
  )

  -- `Allowed` lets a URL through exactly when it parses, its scheme is http or https, its host is not
  -- empty, and the address checked for the host (itself, or the first that its name resolves to)
  -- exists and is loopback or private only where the setting for that allows it.
  pub allowed_iff_MayContact :
      (rawurl : Text)
      → (allowed net rawurl allow_private allow_loopback ≡ true)
        ↔ ((u : Url) × (ip : Text) × (net.parse_url rawurl ≡ some u) × MayContact u ip)
  unfolding allowed
  allowed_iff_MayContact rawurl = parsed_iff (net.parse_url rawurl)
