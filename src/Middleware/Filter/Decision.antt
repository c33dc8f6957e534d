-- ===== src/Middleware/Filter/Decision.antt =====
-- Which clients the filter lets through.
use Prim.Native.String as Str
use text.Mathlib.TextEquality.{eq_iff}
use relayer2_public.Base.{
  ℕ, String, ◌/◌, ◌*◌, ◌<◌, ◌^◌, ◌≡◌, ◌≢◌, ◌↔◌, inl, inr, refl, true, Option, none, some, List, [],
  ◌∷◌, arith, length, All, if◌then◌else◌, Bool-cases,
}
use relayer2_public.Middleware.Filter.{
  Ip, v6, IpNet, net_contains, Parsers, Filter, parse_entry, parse_list, set_config, handled,
  forbidden_client, any_contains, filter_ip,
}

-- Some network of the list contains the address.
pub data IsListed (ip : Ip) : List IpNet → Type 0 where
  here : {n : IpNet} {ns : List IpNet} → net_contains n ip ≡ true → IsListed ip (n ∷ ns)
  there : {n : IpNet} {ns : List IpNet} → IsListed ip ns → IsListed ip (n ∷ ns)

any_contains_sound : (ns : List IpNet) (ip : Ip) → any_contains ns ip ≡ true → IsListed ip ns
unfolding any_contains
any_contains_sound [] ip h = cc
any_contains_sound (n ∷ ns) ip h = elim (Bool-cases (net_contains n ip)) [
  | inl e ↦ here e
  | inr e ↦ there (any_contains_sound ns ip (ground arith))
]

any_contains_complete : (ns : List IpNet) (ip : Ip) → IsListed ip ns → any_contains ns ip ≡ true
unfolding any_contains
any_contains_complete [] ip l = elim l [ ]
any_contains_complete (n ∷ ns) ip (here e) = ground arith
any_contains_complete (n ∷ ns) ip (there l) = ground (arith, any_contains_complete ns ip l)

parse_list_unparsed :
    (parsers : Parsers) (l : List String)
    → All (λ cidr. parse_entry parsers cidr ≡ none) l
    → parse_list parsers l ≡ []
unfolding parse_list
parse_list_unparsed parsers [] h = refl
parse_list_unparsed parsers (cidr ∷ l) h = ground (arith, parse_list_unparsed parsers l h.1)

module _ (f : Filter) (ip : Ip) (full : 0 < length f.list) where
  allow_lem :
      f.policy ≡ "allow"
      → filter_ip f (some ip) ≡ (if any_contains f.list ip then handled else forbidden_client)
  unfolding filter_ip
  allow_lem allow = ground (arith, eq_iff f.policy "allow")

  deny_lem :
      f.policy ≢ "allow"
      → filter_ip f (some ip) ≡ (if any_contains f.list ip then forbidden_client else handled)
  unfolding filter_ip
  deny_lem deny = ground (arith, eq_iff f.policy "allow")

  -- Under the policy "allow" and with a list that is not empty, a known client passes just when some
  -- network of the list contains it.
  pub filter_ip-allow : f.policy ≡ "allow" → (filter_ip f (some ip) ≡ handled) ↔ IsListed ip f.list
  filter_ip-allow allow = (
    λ h. any_contains_sound f.list ip (ground (arith, allow_lem allow)),
    λ l. rw (allow_lem allow, any_contains_complete f.list ip l),
  )

  -- Under any other policy and with a list that is not empty, a known client is turned away just when
  -- some network of the list contains it.
  filter_ip-deny :
      f.policy ≢ "allow" → (filter_ip f (some ip) ≡ forbidden_client) ↔ IsListed ip f.list
  filter_ip-deny deny = (
    λ h. any_contains_sound f.list ip (ground (arith, deny_lem deny)),
    λ l. rw (deny_lem deny, any_contains_complete f.list ip l),
  )

-- If no entry of the configured list can be parsed, every request is handled, also under the policy
-- "allow" and from an unknown client.
set_config_unparsed :
    (parsers : Parsers) (policy : String) (l : List String) (client : Option Ip)
    → All (λ cidr. parse_entry parsers cidr ≡ none) l
    → filter_ip (set_config parsers policy l) client ≡ handled
unfolding filter_ip set_config
set_config_unparsed parsers policy l client unparsed =
    ground (arith, parse_list_unparsed parsers l unparsed)

-- An entry that is a plain address of IPv6 gets the suffix "/32" too. With the network that
-- `ParseCIDR` documents for such a text, the list contains every address with the same first 32 bits.
parse_list_wide :
    (parsers : Parsers) (cidr : String) (l : List String) (a b : ℕ)
    → parsers.parse_ip cidr ≡ some (v6 a)
    → parsers.parse_cidr (Str.◌++◌ cidr "/32")
      ≡ some (record { ip = v6 (a / 2 ^ 96 * 2 ^ 96); prefix = 32 })
    → a / 2 ^ 96 ≡ b / 2 ^ 96
    → IsListed (v6 b) (parse_list parsers (cidr ∷ l))
unfolding parse_list
parse_list_wide parsers cidr l a b is_ip is_net same =
    let net : IpNet = record { ip = v6 (a / 2 ^ 96 * 2 ^ 96); prefix = 32 } in
    let parsed : parse_list parsers (cidr ∷ l) ≡ net ∷ parse_list parsers l = ground arith in
    rw parsed (here (ground arith))
