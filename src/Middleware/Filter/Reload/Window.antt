-- ===== src/Middleware/Filter/Reload/Window.antt =====
-- What a request meets while the filter is reloaded.
use mathlib.Core.List.{append-nil, append_assoc}
use relayer2_public.Base.{
  String, ◌≡◌, refl, sym, ◌∙◌, ap, Option, none, some, List, [], ◌∷◌, ◌++◌, get_elem?, arith,
  same_text, if◌then◌else◌, Option-cases, inl, inr,
}
use relayer2_public.Middleware.Filter.{
  Ip, IpNet, Parsers, Filter, parse_entry, parse_list, set_config, handled, filter_ip,
}
use relayer2_public.Middleware.Filter.Reload.{append_states, reload_states}

-- The last one, or the first argument if there is none.
abbrev pub last_or : Filter → List Filter → Filter
last_or f [] = f
last_or f (g ∷ gs) = last_or g gs

parse_list_skip :
    (parsers : Parsers) (cidr : String) (cidrs : List String)
    → parse_entry parsers cidr ≡ none
    → parse_list parsers (cidr ∷ cidrs) ≡ parse_list parsers cidrs
unfolding parse_list
parse_list_skip parsers cidr cidrs e = ground (arith, e)

parse_list_take :
    (parsers : Parsers) (cidr : String) (cidrs : List String) (n : IpNet)
    → parse_entry parsers cidr ≡ some n
    → parse_list parsers (cidr ∷ cidrs) ≡ n ∷ parse_list parsers cidrs
unfolding parse_list
parse_list_take parsers cidr cidrs n e = ground (arith, e)

append_states-last :
    (parsers : Parsers) (l : List String) (f : Filter)
    → last_or f (append_states parsers l f) ≡ record f { list = f.list ++ parse_list parsers l }
unfolding append_states parse_list
append_states-last parsers [] f = ap (λ l. record f { list = l }) (sym (append-nil f.list))
append_states-last parsers (cidr ∷ cidrs) f = elim (Option-cases (parse_entry parsers cidr)) [
  | inl e ↦ rw (e, parse_list_skip parsers cidr cidrs e) (append_states-last parsers cidrs f)
  | inr (n, e) ↦
      rw (e, parse_list_take parsers cidr cidrs n e)
        (append_states-last parsers cidrs (record f { list = f.list ++ (n ∷ []) })
          ∙ ap (λ l. record f { list = l })
              (append_assoc f.list (n ∷ []) (parse_list parsers cidrs)))
]

-- A reload ends with the filter of the new configuration; but before that, whatever the old and the new
-- configuration say, a request sees a filter with an empty list, and with it every request is handled,
-- also of a client that both of them forbid.
pub reload_window :
    (parsers : Parsers) (p : String) (l : List String) (f : Filter)
    → let states = reload_states parsers p l f in
      (last_or f states ≡ set_config parsers p l)
      × ((g : Filter) × (get_elem? states 2 ≡ some g)
          × ((client : Option Ip) → filter_ip g client ≡ handled))
unfolding reload_states set_config filter_ip
reload_window parsers p l f = (
  append_states-last parsers l
      (record { policy = if same_text p "allow" then p else "deny"; list = [] }),
  (record { policy = if same_text p "allow" then p else "deny"; list = [] }, refl, λ client. refl),
)
