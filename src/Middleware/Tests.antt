-- ===== src/Middleware/Tests.antt =====
-- The theorems about the filter at concrete inputs.
use relayer2_public.Base.{
  get_elem?, Option, ℕ, ◌*◌, ◌/◌, ◌^◌, ◌+◌, ◌≡◌, ◌↔◌, refl, Bool, none, some, [], ◌∷◌, arith,
  same_text, if◌then◌else◌, err,
}
use relayer2_public.Middleware.Filter.{
  Ip, v4, v6, IpNet, Parsers, Filter, set_config, handled, forbidden_client, filter_ip,
}
use relayer2_public.Middleware.Filter.Decision.{IsListed, filter_ip-allow}
use relayer2_public.Middleware.Filter.Reload.{reload_states}
use relayer2_public.Middleware.Filter.Reload.Window.{last_or, reload_window}
use relayer2_public.Middleware.Proxy.{Config, response, generic_error, proxy}

-- 192.168.0.0/16
abbrev lan : IpNet
lan = record { ip = v4 (192 * 2 ^ 24 + 168 * 2 ^ 16); prefix = 16 }

-- 192.168.7.9
abbrev inside : Ip
inside = v4 (192 * 2 ^ 24 + 168 * 2 ^ 16 + 7 * 256 + 9)

abbrev allow : Filter
allow = record { policy = "allow"; list = lan ∷ [] }

abbrev deny : Filter
deny = record { policy = "deny"; list = lan ∷ [] }

filter_ip-allow_example : (filter_ip allow (some inside) ≡ handled) ↔ IsListed inside (lan ∷ [])
filter_ip-allow_example = filter_ip-allow allow inside (omega arith) refl

filter_runs : filter_ip deny (some inside) ≡ forbidden_client
unfolding filter_ip
filter_runs = refl

-- 2001:db8::1
abbrev doc_address : ℕ
doc_address = 0x2001_0db8 * 2 ^ 96 + 1

abbrev wide_net : IpNet
wide_net = record { ip = v6 (doc_address / 2 ^ 96 * 2 ^ 96); prefix = 32 }

abbrev parsers : Parsers
parsers = record {
  parse_ip = λ s. if same_text s "2001:db8::1" then some (v6 doc_address) else none;
  parse_cidr = λ s. if same_text s "2001:db8::1/32" then some wide_net else none;
}

reload_window_example :
    (last_or deny (reload_states parsers "deny" ("2001:db8::1" ∷ []) deny)
      ≡ set_config parsers "deny" ("2001:db8::1" ∷ []))
    × ((g : Filter) × (get_elem? (reload_states parsers "deny" ("2001:db8::1" ∷ []) deny) 2
          ≡ some g)
        × ((client : Option Ip) → filter_ip g client ≡ handled))
reload_window_example = reload_window parsers "deny" ("2001:db8::1" ∷ []) deny

abbrev config : Config
config = record {
  proxy_url = "https://node";
  proxy_endpoints = ("eth_estimateGas", Bool.true) ∷ [];
}

relays :
    proxy (λ url body. err "down") config (λ name body. response name) "eth_estimateGas" "{}"
    ≡ generic_error "down"
unfolding proxy
relays = refl

serves :
    proxy (λ url body. err "down") config (λ name body. response name) "eth_call" "{}"
    ≡ response "eth_call"
unfolding proxy
serves = refl
