-- ===== src/ScanConfig.antt =====
-- scanner/app: the flags of the scanner (parse.go), its configuration with Validate (config.go) and
-- the Setup of the application (application.go). What cli.Context holds and what the constructors of
-- the services return are arguments; parseLogging and metrics only change what is printed.
pub mod Complete
pub mod Valid
mod Tests
use node_util.Base.{
  ℕ, ◌*◌, ◌%◌, ◌^◌, Bool, true, false, not, ◌&&◌, List, [], ◌∷◌, ◌++◌, Option, none, some, ltb,
  ◌==◌, if◌then◌else◌, length,
}
use node_util.Base.Int.{ℤ, pos, negsuc, to_int64, to_uint64}
use node_util.Node.{Ip}
use node_util.Scanner.{max_tcp_port}

-- A string of Go, by its bytes.
abbrev pub Text : Type 0
Text = List ℕ

pub data Flag : Type 0 where
  verbose_flag metrics_flag ips_flag burst_flag interval_flag port_start_flag port_end_flag : Flag
  broker_enabled_flag broker_endpoint_flag broker_user_flag broker_password_flag : Flag
  db_enabled_flag db_source_flag db_migration_url_flag : Flag
  cache_enabled_flag cache_endpoint_flag cache_password_flag : Flag

-- cli.Context, by what its methods return for a flag.
pub record Cli : Type 0 where
  pub is_set : Flag → Bool
  pub bool : Flag → Bool
  pub string : Flag → Text
  pub strings : Flag → List Text
  pub int : Flag → ℤ
  pub uint : Flag → ℕ

pub record Config : Type 0 where
  pub ips : List Ip
  pub threads : ℤ
  pub burst : ℤ
  pub interval : ℤ
  pub port_start : ℤ
  pub port_end : ℤ
  pub metrics : Bool
  pub store_enabled : Bool
  pub store_migration : Text
  pub store_source : Text
  pub cache_enabled : Bool
  pub cache_endpoint : Text
  pub cache_password : Text
  pub broker_enabled : Bool
  pub broker_endpoint : Text
  pub broker_user : Text
  pub broker_password : Text

-- With the result of runtime.GOMAXPROCS(0). The interval is in nanoseconds.
unfoldable pub default_config : ℕ → Config
default_config procs = record {
  ips = [];
  threads = pos procs;
  burst = pos 10;
  interval = pos 100_000_000;
  port_start = pos 0;
  port_end = pos max_tcp_port;
  metrics = false;
  store_enabled = false;
  store_migration = [];
  store_source = [];
  cache_enabled = false;
  cache_endpoint = [];
  cache_password = [];
  broker_enabled = false;
  broker_endpoint = [];
  broker_user = [];
  broker_password = [];
}

pub data ParseError : Type 0 where
  no_broker_username no_broker_password no_broker_endpoint : ParseError
  no_db_source no_db_migration : ParseError
  no_cache_endpoint : ParseError
  invalid_ip no_ips : ParseError

unfoldable pub parse_metrics : Cli → Config → Config
parse_metrics ctx cfg =
    if ctx.is_set metrics_flag then record cfg { metrics = ctx.bool metrics_flag } else cfg

-- The configuration is changed in place, so it is returned with an error, too.
unfoldable pub parse_broker : Cli → Config → Config × Option ParseError
parse_broker ctx cfg =
    if not (ctx.is_set broker_enabled_flag)
    then (cfg, none)
    else (if not (ctx.is_set broker_user_flag)
        then (cfg, some no_broker_username)
        else (if not (ctx.is_set broker_password_flag)
            then (cfg, some no_broker_password)
            else (if not (ctx.is_set broker_endpoint_flag)
                then (cfg, some no_broker_endpoint)
                else (
                  record cfg {
                    broker_enabled = ctx.bool broker_enabled_flag;
                    broker_user = ctx.string broker_user_flag;
                    broker_password = ctx.string broker_password_flag;
                    broker_endpoint = ctx.string broker_endpoint_flag;
                  },
                  none,
                ))))

unfoldable pub parse_db : Cli → Config → Config × Option ParseError
parse_db ctx cfg =
    if not (ctx.is_set db_enabled_flag)
    then (cfg, none)
    else (if not (ctx.is_set db_source_flag)
        then (cfg, some no_db_source)
        else (if not (ctx.is_set db_migration_url_flag) then (cfg, some no_db_migration) else (
          record cfg {
            store_enabled = ctx.bool db_enabled_flag;
            store_source = ctx.string db_source_flag;
            store_migration = ctx.string db_migration_url_flag;
          },
          none,
        )))

-- A missing password has the error of a missing endpoint: its text names that flag.
unfoldable pub parse_cache : Cli → Config → Config × Option ParseError
parse_cache ctx cfg =
    if not (ctx.is_set cache_enabled_flag)
    then (cfg, none)
    else (if not (ctx.is_set cache_endpoint_flag)
        then (cfg, some no_cache_endpoint)
        else (if not (ctx.is_set cache_password_flag) then (cfg, some no_cache_endpoint) else (
          record cfg {
            cache_enabled = ctx.bool cache_enabled_flag;
            cache_endpoint = ctx.string cache_endpoint_flag;
            cache_password = ctx.string cache_password_flag;
          },
          none,
        )))

module _ (parse_ip : Text → Option Ip) where
  -- The loop of ParseIps: the addresses before one that is not valid are kept.
  unfoldable pub add_ips : Config → List Text → Config × Option ParseError
  add_ips cfg [] = (cfg, none)
  add_ips cfg (raw ∷ raws) = elim (parse_ip raw) [
    | none ↦ (cfg, some invalid_ip)
    | some ip ↦ add_ips (record cfg { ips = cfg.ips ++ ip ∷ [] }) raws
  ]

  unfoldable pub parse_ips : Cli → Config → Config × Option ParseError
  unfolding add_ips
  parse_ips ctx cfg =
      let raws = ctx.strings ips_flag in
      let (grown, error) = add_ips cfg raws in
      if not (ctx.is_set ips_flag) then (cfg, none) else elim error [
        | some e ↦ (grown, some e)
        | none ↦ (grown, if length raws == 0 then some no_ips else none)
      ]

-- The product of two int64 wraps around.
unfoldable pub parse_interval : Cli → Config → Config
parse_interval ctx cfg =
    if ctx.is_set interval_flag
    then record cfg { interval = to_int64 (1_000_000 * to_uint64 (ctx.int interval_flag) % 2 ^ 64) }
    else cfg

-- Both ports are read when the start port is set.
unfoldable pub parse_ports : Cli → Config → Config
parse_ports ctx cfg =
    let start =
      if ctx.is_set port_start_flag
      then record cfg { port_start = to_int64 (ctx.uint port_start_flag) }
      else cfg in
    if ctx.is_set port_start_flag
    then record start { port_end = to_int64 (ctx.uint port_end_flag) }
    else start

-- What follows in Parse after a step without an error.
abbrev pub then_parse :
    Config × Option ParseError → (Config → Config × Option ParseError) → Config × Option ParseError
then_parse (cfg, some e) next = (cfg, some e)
then_parse (cfg, none) next = next cfg

-- Parse drops the error of ParseIps, and does not call ParsePorts.
unfoldable pub parse : (Text → Option Ip) → Cli → Config → Config × Option ParseError
unfolding parse_metrics parse_interval parse_ips parse_broker parse_db parse_cache
parse parse_ip ctx cfg =
    let start = (parse_ips parse_ip ctx (parse_interval ctx (parse_metrics ctx cfg))).0 in
    then_parse (parse_broker ctx start) (λ c. then_parse (parse_db ctx c) (parse_cache ctx))

abbrev pub below : ℤ → ℕ → Bool
below (pos n) k = ltb n k
below (negsuc n) k = true

-- `none` is the error that there is nothing to scan.
unfoldable pub validate : Config → Option Config
validate conf =
    if (length conf.ips == 0) && not conf.broker_enabled
    then none
    else some (record conf {
      burst = if below conf.burst 1 then pos 1 else conf.burst;
      interval = if below conf.interval 1_000_000 then pos 1_000_000 else conf.interval;
      threads = if below conf.threads 1 then pos 1 else conf.threads;
      port_start =
          if below conf.port_end 1
          then pos max_tcp_port
          else (if below conf.port_start 0 then pos 0 else conf.port_start);
    })

pub data SetupError : Type 0 where
  broker_failed broker_required cache_failed cache_required store_failed store_required : SetupError

-- Setup, with whether each service starts.
unfoldable pub setup : Config → Bool → Bool → Bool → Option SetupError
setup conf broker_starts cache_starts store_starts =
    if not conf.broker_enabled
    then some broker_required
    else (if not broker_starts
        then some broker_failed
        else (if not conf.cache_enabled
            then some cache_required
            else (if not cache_starts
                then some cache_failed
                else (if not conf.store_enabled
                    then some store_required
                    else (if not store_starts then some store_failed else none)))))
