-- ===== src/Middleware/Filter/Reload.antt =====
-- The opening of the filter in middleware/filterIP.go, and `setConfig` as the requests see it that are
-- handled meanwhile: it writes the fields of the filter one after the other, without a lock.
pub mod Window
use relayer2_public.Base.{
  String, Bool, true, false, Option, none, some, List, [], ◌∷◌, ◌++◌, same_text, if◌then◌else◌,
}
use relayer2_public.Middleware.Filter.{IpNet, Parsers, Filter, parse_entry, set_config}

abbrev default_filter_file_path : String
default_filter_file_path = "config/filter.yaml"

-- The path of the configuration file, from what viper has.
unfoldable pub filter_file : String → String
filter_file configured = if same_text configured "" then default_filter_file_path else configured

-- What `ReadInConfig` answers: the policy and the list, no file, or another error.
pub data ConfigRead : Type 0 where
  config_read : String → List String → ConfigRead
  path_error : ConfigRead
  read_error : ConfigRead

-- The filter of a new middleware, and whether the file is watched.
pub record Opened : Type 0 where
  pub filter : Filter
  pub watched : Bool

-- `none` is the end of the process by `Fatal`. A file that is missing is only warned of, and viper then
-- answers with an empty text and an empty list.
unfoldable pub open_filter : Parsers → ConfigRead → Option Opened
unfolding set_config
open_filter parsers (config_read policy list) =
    some (record { filter = set_config parsers policy list; watched = true })
open_filter parsers path_error =
    some (record { filter = set_config parsers "" []; watched = false })
open_filter parsers read_error = none

after_entry : Option IpNet → Filter → List Filter → List Filter
after_entry none f rest = rest
after_entry (some n) f rest = f ∷ rest

appended : Option IpNet → Filter → Filter
appended none f = f
appended (some n) f = record f { list = f.list ++ (n ∷ []) }

-- The filter after each entry that is appended to its list.
unfoldable pub append_states : Parsers → List String → Filter → List Filter
unfolding after_entry appended
append_states parsers [] f = []
append_states parsers (cidr ∷ cidrs) f =
    let e = parse_entry parsers cidr in
    after_entry e (appended e f) (append_states parsers cidrs (appended e f))

-- The filters that a request can see during `setConfig`, from the old one to the new one.
unfoldable pub reload_states : Parsers → String → List String → Filter → List Filter
unfolding append_states
reload_states parsers p l f =
    let policed = record f { policy = if same_text p "allow" then p else "deny" } in
    let emptied = record policed { list = [] } in
    f ∷ policed ∷ emptied ∷ append_states parsers l emptied
