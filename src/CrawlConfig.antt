-- ===== src/CrawlConfig.antt =====
-- crawler/app/parse.go: the flags of the crawler. What cli.Context holds, the functions of strings
-- and strconv, enode.ParseV4 and the constructor of the store are arguments.
pub mod Caps
mod Tests
use node_util.Base.{
  ℕ, suc, ◌*◌, ◌%◌, ◌^◌, Bool, true, false, not, List, [], ◌∷◌, ◌++◌, Option, none, some, ltb, ◌==◌,
  if◌then◌else◌, length, set, replicate,
}
use node_util.Base.Int.{ℤ, pos, negsuc, to_int64, to_uint64}
use node_util.Node.{Enode}
use node_util.ScanConfig.{Text, below}

pub data Flag : Type 0 where
  nodes_flag metrics_flag identities_flag disc_port timeout_in_minutes_flag : Flag
  concurrency_factor_flag dir_flag fake_name fake_caps : Flag
  broker_enabled broker_user broker_password broker_endpoint db_source db_migration_url : Flag

pub record Cli : Type 0 where
  pub is_set : Flag → Bool
  pub bool : Flag → Bool
  pub string : Flag → Text
  pub strings : Flag → List Text
  pub int : Flag → ℤ
  pub uint64 : Flag → ℕ

-- What the parsers use of strings, strconv and enode.
pub record Parsers : Type 0 where
  pub split_commas : Text → List Text
  pub split_colons : Text → List Text
  pub has_enode_prefix : Text → Bool
  pub parse_v4 : Text → Option Enode
  pub atoi : Text → Option ℤ

-- `none` is an error, also for a source that is no enode URL.
unfoldable pub parse_node : Parsers → Text → Option Enode
parse_node p source = if p.has_enode_prefix source then p.parse_v4 source else none

-- The loop of ParseNodes, with the nodes so far.
unfoldable pub parse_records : Parsers → List Enode → List Text → Option (List Enode)
unfolding parse_node
parse_records p nodes [] = some nodes
parse_records p nodes (record_text ∷ rest) = elim (parse_node p record_text) [
  | none ↦ none
  | some n ↦ parse_records p (nodes ++ n ∷ []) rest
]

unfoldable pub parse_nodes : Parsers → Cli → Option (List Enode)
unfolding parse_records
parse_nodes p ctx =
    let input = ctx.string nodes_flag in
    if ctx.is_set nodes_flag
    then (if length input == 0 then some [] else parse_records p [] (p.split_commas input))
    else some []

unfoldable pub parse_metrics : Cli → Bool
parse_metrics ctx = if ctx.is_set metrics_flag then ctx.bool metrics_flag else false

-- 42 is the star.
unfoldable pub parse_identities : Cli → List Text
parse_identities ctx =
    let s = if ctx.is_set identities_flag then ctx.strings identities_flag else [] in
    if length s == 0 then (42 ∷ []) ∷ [] else s

unfoldable pub parse_disc_port : Cli → ℤ
parse_disc_port ctx =
    let port = if ctx.is_set disc_port then ctx.int disc_port else pos 0 in
    if below port 1000 then pos 10_001 else port

-- The time after which the context ends, in nanoseconds as an int64; `none` for no limit.
unfoldable pub parse_timeout : Cli → Option ℤ
parse_timeout ctx =
    let input = ctx.uint64 timeout_in_minutes_flag in
    if not (ctx.is_set timeout_in_minutes_flag)
    then none
    else (if input == 0 then none else some (to_int64 (input * 60_000_000_000 % 2 ^ 64)))

unfoldable pub parse_concurrency : Cli → ℤ
parse_concurrency ctx =
    if not (ctx.is_set concurrency_factor_flag)
    then pos 8
    else to_int64 (ctx.uint64 concurrency_factor_flag)

-- The dot.
abbrev pub default_directory : Text
default_directory = 46 ∷ []

unfoldable pub parse_dir : Cli → Text
parse_dir ctx =
    let input = ctx.string dir_flag in
    if not (ctx.is_set dir_flag)
    then default_directory
    else (if length input == 0 then default_directory else input)

unfoldable pub parse_fake_name : Cli → Text
parse_fake_name ctx = if ctx.is_set fake_name then ctx.string fake_name else []

-- p2p.Cap
pub record Cap : Type 0 where
  pub name : Text
  pub version : ℕ

-- One round of the loop of ParseFakeCaps: NAME:VALUE.
unfoldable pub parse_cap : Parsers → Text → Option Cap
parse_cap p flag = elim (p.split_colons flag) [
  | [] ↦ none
  | name ∷ [] ↦ none
  | name ∷ value ∷ [] ↦ elim (p.atoi value) [
    | none ↦ none
    | some v ↦ some (record { name = name; version = to_uint64 v })
  ]
  | name ∷ value ∷ third ∷ rest ↦ none
]

-- The loop from an index on, over the slice `flags`.
unfoldable pub parse_caps : Parsers → List Cap → ℕ → List Text → Option (List Cap)
unfolding parse_cap
parse_caps p flags i [] = some flags
parse_caps p flags i (flag ∷ rest) = elim (parse_cap p flag) [
  | none ↦ none
  | some c ↦ parse_caps p (set flags i c) (suc i) rest
]

abbrev pub zero_cap : Cap
zero_cap = record { name = []; version = 0 }

-- With the default queries of the querier.
unfoldable pub parse_fake_caps : Parsers → List Cap → Cli → Option (List Cap)
unfolding parse_caps
parse_fake_caps p default_queries ctx =
    let raw = if ctx.is_set fake_caps then ctx.strings fake_caps else [] in
    elim (parse_caps p (replicate (length raw) zero_cap) 0 raw) [
      | none ↦ none
      | some flags ↦ some (if length flags == 0 then flags ++ default_queries else flags)
    ]

pub data ParseError : Type 0 where
  no_username no_password no_endpoint : ParseError

pub record BrokerFlags : Type 0 where
  pub username : Text
  pub password : Text
  pub endpoint : Text
  pub enabled : Bool

abbrev pub no_flags : Bool → BrokerFlags
no_flags on = record { username = []; password = []; endpoint = []; enabled = on }

-- An error comes with `enabled`, and the value of the flag broker_enabled is not read.
unfoldable pub parse_broker : Cli → BrokerFlags × Option ParseError
parse_broker ctx =
    if not (ctx.is_set broker_enabled)
    then (no_flags false, none)
    else (if not (ctx.is_set broker_user)
        then (no_flags true, some no_username)
        else (if not (ctx.is_set broker_password)
            then (no_flags true, some no_password)
            else (if not (ctx.is_set broker_endpoint) then (no_flags true, some no_endpoint) else (
              record {
                username = ctx.string broker_user;
                password = ctx.string broker_password;
                endpoint = ctx.string broker_endpoint;
                enabled = true;
              },
              none,
            ))))

-- `none` is a missing flag or the error of NewStore, which gets the source and the migration path.
unfoldable pub parse_db {ℓ} : {S : Type ℓ} → (Text → Text → Option S) → Cli → Option S
parse_db new_store ctx =
    if not (ctx.is_set db_source)
    then none
    else (if not (ctx.is_set db_migration_url)
        then none
        else new_store (ctx.string db_source) (ctx.string db_migration_url))
