-- ===== src/Outbound/Targets.antt =====
-- core/security.py: which URLs may be fetched.
use langgraph_agent_stack.Prelude.{
  ◌==◌, Bool-cases, Option-cases, any, mem, Text, text, text_beq_iff, nonempty, strip_chars,
  ok_injective, bind_ok, ok, ◌≡◌, refl, sym, ap, inl, inr, Bool, true, false, ◌||◌, Option, none,
  some, List, [], ◌∷◌, text_eq, nat_eq,
}
use langgraph_agent_stack.Outbound.{
  Address, Network, blocked_outbound_hostnames, is_blocked_outbound_ip, cons_address, addresses_of,
  some_address, resolve_outbound_host_ips, is_bracket, host_addresses, checked_addresses,
  host_lower_of, validate_outbound_url,
}
use mathlib.Core.Path.{subst}

-- A text is among the answers of `getaddrinfo`.
abbrev pub is_answer : Text → List (Option Text) → Bool
is_answer ip [] = false
is_answer ip (none ∷ infos) = is_answer ip infos
is_answer ip (some other ∷ infos) = (ip == other) || is_answer ip infos

abbrev satisfies : (Address → Bool) → Option Address → Bool
satisfies p none = false
satisfies p (some addr) = p addr

abbrev among : (Address → Bool) → (Text → Option Address) → Text → Bool
among p ip_address ip = satisfies p (ip_address ip)

cons-any :
    (p : Address → Bool) (o : Option Address) (rest : List Address)
    → any p rest ≡ true
    → any p (cons_address o rest) ≡ true
cons-any p none rest h = h
cons-any p (some addr) rest h = rw h (or_true (p addr))
  where
    or_true : (b : Bool) → (b || true) ≡ true
    or_true true = refl
    or_true false = refl

head-any :
    (p : Address → Bool) (o : Option Address) (rest : List Address)
    → satisfies p o ≡ true
    → any p (cons_address o rest) ≡ true
head-any p none rest h = absurd (cc)
head-any p (some addr) rest h = rw h refl

-- An address that has not been seen yet is found, however often its text stands there.
addresses_of-any :
    (p : Address → Bool) (ip_address : Text → Option Address) (ip : Text) (seen : List Text)
    (infos : List (Option Text))
    → among p ip_address ip ≡ true
    → mem ip seen ≡ false
    → is_answer ip infos ≡ true
    → any p (addresses_of ip_address seen infos) ≡ true
unfolding addresses_of
addresses_of-any p ip_address ip seen [] bad fresh there = absurd (cc)
addresses_of-any p ip_address ip seen (none ∷ infos) bad fresh there =
    addresses_of-any p ip_address ip seen infos bad fresh there
addresses_of-any p ip_address ip seen (some other ∷ infos) bad fresh there =
    elim (Bool-cases (ip == other)) [
      | inr differs ↦ elim (Bool-cases (mem other seen)) [
        | inl again ↦
            rw again (addresses_of-any p ip_address ip seen infos bad fresh (rw differs at there))
        | inr new ↦ rw new (
            cons-any p (ip_address other) (addresses_of ip_address (other ∷ seen) infos) (
              addresses_of-any p ip_address ip (other ∷ seen) infos bad (rw differs fresh)
                (rw differs at there)))
      ]
      | inl same ↦
          let equal = (text_beq_iff ip other).0 same in
          rw (subst (λ k. mem k seen ≡ false) equal fresh) (
            head-any p (ip_address other) (addresses_of ip_address (other ∷ seen) infos)
              (subst (λ k. among p ip_address k ≡ true) equal bad))
    ]

-- None of the classes of addresses that stay within a network.
abbrev pub IsPublic : Address → Type 0
IsPublic addr =
    (addr.is_loopback ≡ false)
    × (addr.is_private ≡ false)
    × (addr.is_link_local ≡ false)
    × (addr.is_reserved ≡ false)
    × (addr.is_multicast ≡ false)
    × (addr.is_unspecified ≡ false)

neither : (a b : Bool) → (a || b) ≡ false → (a ≡ false) × (b ≡ false)
neither true b h = absurd (cc)
neither false b h = (refl, h)

free-IsPublic : (addr : Address) → is_blocked_outbound_ip addr ≡ false → IsPublic addr
unfolding is_blocked_outbound_ip
free-IsPublic addr h =
    let (h4, unspecified) = neither _ addr.is_unspecified h in
    let (h3, multicast) = neither _ addr.is_multicast h4 in
    let (h2, reserved) = neither _ addr.is_reserved h3 in
    let (h1, link_local) = neither _ addr.is_link_local h2 in
    let (loopback, private) = neither addr.is_loopback addr.is_private h1 in
    (loopback, private, link_local, reserved, multicast, unspecified)

-- A host that is itself an address is public; otherwise every answer that is an address is.
abbrev pub IsAllowedHost : Network → Text → Type 0
IsAllowedHost network host_lower =
    ((addr : Address)
      → network.ip_address (strip_chars is_bracket host_lower) ≡ some addr
      → IsPublic addr)
    × (network.ip_address (strip_chars is_bracket host_lower) ≡ none
        → (ip : Text) (addr : Address) (infos : List (Option Text))
        → network.getaddrinfo host_lower ≡ some infos
        → is_answer ip infos ≡ true
        → network.ip_address ip ≡ some addr
        → IsPublic addr)

not_true : (b : Bool) → ¬ (b ≡ true) → b ≡ false
not_true true h = absurd (h refl)
not_true false h = refl

some_address-same :
    (found addresses : List Address) → some_address found ≡ ok addresses → found ≡ addresses
some_address-same [] addresses h = absurd (cc)
some_address-same (addr ∷ rest) addresses h = ok_injective (addr ∷ rest) addresses h

checked-none :
    (url u : Text) (addresses : List Address)
    → checked_addresses url addresses ≡ ok u
    → (any is_blocked_outbound_ip addresses ≡ false) × (url ≡ u)
checked-none url u addresses h = elim (Bool-cases (any is_blocked_outbound_ip addresses)) [
  | inl blocked ↦ absurd (cc (rw blocked at h))
  | inr free ↦ (free, ok_injective url u (rw free at h))
]

addresses-IsAllowedHost :
    (network : Network) (host_lower : Text) (addresses : List Address)
    → host_addresses network host_lower ≡ ok addresses
    → any is_blocked_outbound_ip addresses ≡ false
    → IsAllowedHost network host_lower
unfolding host_addresses resolve_outbound_host_ips
addresses-IsAllowedHost network host_lower addresses h free = (
  λ addr literal. free-IsPublic addr (
      single addr (
        subst (λ l. any is_blocked_outbound_ip l ≡ false)
          (sym (ok_injective (addr ∷ []) addresses (rw literal at h))) free)),
  λ named ip addr infos answered there is. free-IsPublic addr (
      not_true (is_blocked_outbound_ip addr) (λ bad.
        let all_of =
          some_address-same (addresses_of network.ip_address [] infos) addresses
            (rw (named, answered) at h) in
        cc (
          addresses_of-any is_blocked_outbound_ip network.ip_address ip [] infos (rw is bad) refl
              there,
          ap (any is_blocked_outbound_ip) all_of,
          free,
        ))),
)
  where
    single :
        (addr : Address)
        → any is_blocked_outbound_ip (addr ∷ []) ≡ false
        → is_blocked_outbound_ip addr ≡ false
    single addr h = elim (Bool-cases (is_blocked_outbound_ip addr)) [
      | inl blocked ↦ absurd (cc (rw blocked at h))
      | inr free ↦ free
    ]

-- A URL that passes is returned unchanged; its scheme is http or https, its host is there and none
-- of the blocked names, and no address that the host is, or that the resolver gave for a host that is
-- none, at whatever place among the answers, is loopback, private, link-local, reserved, multicast
-- or unspecified.
pub validate_outbound_url-IsAllowedHost :
    (network : Network) (url u : Text)
    → validate_outbound_url network url ≡ ok u
    → (u ≡ url)
      × (mem (network.urlparse url).scheme (text "http" ∷ text "https" ∷ []) ≡ true)
      × ((host : Text) × ((network.urlparse url).hostname ≡ some host)
          × (nonempty host ≡ true)
          × (mem (host_lower_of host) blocked_outbound_hostnames ≡ false)
          × IsAllowedHost network (host_lower_of host))
unfolding validate_outbound_url
validate_outbound_url-IsAllowedHost network url u h =
    elim (Bool-cases (mem (network.urlparse url).scheme (text "http" ∷ text "https" ∷ []))) [
      | inr other ↦ absurd (cc (rw other at h))
      | inl http ↦ elim (Option-cases (network.urlparse url).hostname) [
        | inl missing ↦ absurd (cc (rw (http, missing) at h))
        | inr (host, given) ↦ elim (Bool-cases (nonempty host)) [
          | inr empty ↦ absurd (cc (rw (http, given, empty) at h))
          | inl named ↦ elim (Bool-cases (mem (host_lower_of host) blocked_outbound_hostnames)) [
            | inl blocked ↦ absurd (cc (rw (http, given, named, blocked) at h))
            | inr unlisted ↦
                let (addresses, found, passed) =
                  bind_ok (host_addresses network (host_lower_of host)) (checked_addresses url) u
                    (rw (http, given, named, unlisted) at h) in
                let (free, same) = checked-none url u addresses passed in
                (
                  sym same,
                  http,
                  (
                    host,
                    given,
                    named,
                    unlisted,
                    addresses-IsAllowedHost network (host_lower_of host) addresses found free,
                  ),
                )
          ]
        ]
      ]
    ]
