-- ===== src/ScanConfig/Tests.antt =====
-- Examples for the configuration of the scanner.
use node_util.Base.{◌≡◌, Bool, true, false, [], ◌∷◌, Option, none}
use node_util.Base.Int.{pos}
use node_util.Node.{Ip}
use node_util.ScanConfig.{
  Text, Flag, Cli, broker_password_flag, parse_metrics, parse_broker, parse_db, parse_cache,
  add_ips, parse_ips, parse_interval, parse, default_config, setup,
}
use node_util.ScanConfig.Complete.{services, first_missing, parse-first_missing}

program : Unit {0}
unfolding parse_metrics parse_broker parse_db parse_cache add_ips parse_ips parse_interval parse
    default_config setup
program = tt

abbrev all_but : (Flag → Bool) → Cli
all_but set = record {
  is_set = set;
  bool = λ f. true;
  string = λ f. 65 ∷ [];
  strings = λ f. (49 ∷ []) ∷ [];
  int = λ f. pos 20;
  uint = λ f. 80;
}

abbrev everything : Flag → Bool
everything f = true

abbrev no_password : Flag → Bool
no_password broker_password_flag = false
no_password f = true

abbrev no_address : Text → Option Ip
no_address t = none

parse-first_missing_example :
    (parse no_address (all_but no_password) (default_config 4)).1
    ≡ first_missing (all_but no_password) services
parse-first_missing_example =
    parse-first_missing no_address (all_but no_password) (default_config 4)
