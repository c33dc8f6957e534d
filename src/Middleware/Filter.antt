-- ===== src/Middleware/Filter.antt =====
-- middleware/filterIP.go. An address of the package `net` is its family with its bits as a number,
-- and a network an address with the length of its prefix. The parsers of that package are an argument:
-- they read the texts of the configuration, and here only what they answer matters.
pub mod Decision
pub mod Reload
use relayer2_public.Base.{
  ℕ, String, ◌-◌, ◌/◌, ◌<◌, ◌^◌, Bool, true, false, ◌&&◌, ◌||◌, Option, none, some, List, [], ◌∷◌,
  ◌==◌, ltb, length, same_text, if◌then◌else◌,
}
use Prim.Native.String as Str

pub data Ip : Type 0 where
  v4 v6 : ℕ → Ip

pub record IpNet : Type 0 where
  pub ip : Ip
  pub prefix : ℕ

-- The same bits up to the prefix.
abbrev pub same_prefix : ℕ → ℕ → ℕ → ℕ → Bool
same_prefix width prefix a b = a / 2 ^ (width - prefix) == b / 2 ^ (width - prefix)

abbrev contains_by_family : ℕ → Ip → Ip → Bool
contains_by_family prefix (v4 a) (v4 b) = same_prefix 32 prefix a b
contains_by_family prefix (v6 a) (v6 b) = same_prefix 128 prefix a b
contains_by_family prefix _ _ = false

-- `IPNet.Contains`: an address of the other family is in no network.
abbrev pub net_contains : IpNet → Ip → Bool
net_contains n ip = contains_by_family n.prefix n.ip ip

-- `ParseIP` and `ParseCIDR`.
pub record Parsers : Type 0 where
  pub parse_ip : String → Option Ip
  pub parse_cidr : String → Option IpNet

pub record Filter : Type 0 where
  pub policy : String
  pub list : List IpNet

abbrev pub parse_entry : Parsers → String → Option IpNet
parse_entry parsers cidr = elim (parsers.parse_ip cidr) [
  | some ip ↦ parsers.parse_cidr (Str.◌++◌ cidr "/32")
  | none ↦ parsers.parse_cidr cidr
]

-- The loop of `setConfig`: an entry that cannot be parsed is logged and left out.
unfoldable pub parse_list : Parsers → List String → List IpNet
parse_list parsers [] = []
parse_list parsers (cidr ∷ cidrs) = elim (parse_entry parsers cidr) [
  | none ↦ parse_list parsers cidrs
  | some n ↦ n ∷ parse_list parsers cidrs
]

unfoldable pub set_config : Parsers → String → List String → Filter
unfolding parse_list
set_config parsers p l = record {
  policy = if same_text p "allow" then p else "deny";
  list = parse_list parsers l;
}

-- What the middleware does with a request: it calls the handler or sets an error.
pub data Verdict : Type 0 where
  handled unknown_client forbidden_client : Verdict

-- The loop over the list.
unfoldable pub any_contains : List IpNet → Ip → Bool
any_contains [] ip = false
any_contains (n ∷ ns) ip = if net_contains n ip then true else any_contains ns ip

check_client : Filter → Ip → Verdict
unfolding any_contains
check_client f ip =
    if same_text f.policy "allow"
    then (if any_contains f.list ip then handled else forbidden_client)
    else if any_contains f.list ip
    then forbidden_client
    else handled

-- `client` is the address in the context, if that has one that is not nil.
unfoldable pub filter_ip : Filter → Option Ip → Verdict
unfolding check_client
filter_ip f client =
    if ltb 0 (length f.list)
    then elim client [ none ↦ unknown_client | some ip ↦ check_client f ip ]
    else handled
