-- ===== src/ScanConfig/Complete.antt =====
-- A scanner that has passed Parse and Setup of scanner/app was given all flags of its services.
use node_util.Base.{
  false, sym, ◌∙◌, Bool, ℕ, ◌≡◌, refl, Bool, true, inl, inr, List, [], ◌∷◌, ◌++◌, Option,
  Option-cases, none, some, arith, All, if◌then◌else◌,
}
use node_util.Node.{Ip}
use node_util.ScanConfig.{
  then_parse, Text, Flag, Cli, ips_flag, Config, ParseError, broker_enabled_flag,
  broker_endpoint_flag, broker_user_flag, broker_password_flag, db_enabled_flag, db_source_flag,
  db_migration_url_flag, cache_enabled_flag, cache_endpoint_flag, cache_password_flag,
  no_broker_username, no_broker_password, no_broker_endpoint, no_db_source, no_db_migration,
  no_cache_endpoint, parse_metrics, parse_broker, parse_db, parse_cache, add_ips, parse_ips,
  parse_interval, parse, default_config, setup,
}

-- The flags that a service needs once its enabling flag is given, with true or with false, and the
-- error for each.
abbrev broker_needs : List (Flag × ParseError)
broker_needs =
    (broker_user_flag, no_broker_username)
    ∷ (broker_password_flag, no_broker_password)
    ∷ (broker_endpoint_flag, no_broker_endpoint)
    ∷ []

abbrev db_needs : List (Flag × ParseError)
db_needs = (db_source_flag, no_db_source) ∷ (db_migration_url_flag, no_db_migration) ∷ []

abbrev cache_needs : List (Flag × ParseError)
cache_needs =
    (cache_endpoint_flag, no_cache_endpoint) ∷ (cache_password_flag, no_cache_endpoint) ∷ []

abbrev pub services : List (Flag × List (Flag × ParseError))
services =
    (broker_enabled_flag, broker_needs)
    ∷ (db_enabled_flag, db_needs)
    ∷ (cache_enabled_flag, cache_needs)
    ∷ []

-- The error of the first flag that is needed and not set, if nothing else is wrong.
abbrev pub missing_of : Cli → List (Flag × ParseError) → Option ParseError → Option ParseError
missing_of ctx [] rest = rest
missing_of ctx ((flag, error) ∷ flags) rest =
    let later = missing_of ctx flags rest in if ctx.is_set flag then later else some error

abbrev pub first_missing : Cli → List (Flag × List (Flag × ParseError)) → Option ParseError
first_missing ctx [] = none
first_missing ctx ((switch, needs) ∷ rest) =
    let later = first_missing ctx rest in
    if ctx.is_set switch then missing_of ctx needs later else later

-- Parse fails exactly when the enabling flag of a service is given, be it with true or with false, and
-- one of the other flags of that service is not, with the error of the first such flag; the error of
-- a missing password of the cache is the one of its missing endpoint.
pub parse-first_missing :
    (parse_ip : Text → Option Ip) (ctx : Cli) (cfg : Config)
    → (parse parse_ip ctx cfg).1 ≡ first_missing ctx services
unfolding parse parse_broker parse_db parse_cache
parse-first_missing parse_ip ctx cfg = ground arith

-- What the flags of no service change.
abbrev HasSameSwitches : Config → Config → Type 0
HasSameSwitches c e =
    (e.broker_enabled ≡ c.broker_enabled)
    × ((e.store_enabled ≡ c.store_enabled) × (e.cache_enabled ≡ c.cache_enabled))

add_ips-HasSameSwitches :
    (parse_ip : Text → Option Ip) (raws : List Text) (c : Config)
    → HasSameSwitches c (add_ips parse_ip c raws).0
unfolding add_ips
add_ips-HasSameSwitches parse_ip [] c = (refl, (refl, refl))
add_ips-HasSameSwitches parse_ip (raw ∷ raws) c = elim (Option-cases (parse_ip raw)) [
  | inl e ↦ rw (e, add_ips) (refl, (refl, refl))
  | inr (ip, e) ↦
      rw (e, add_ips) (add_ips-HasSameSwitches parse_ip raws (record c { ips = c.ips ++ ip ∷ [] }))
]

start-HasSameSwitches :
    (parse_ip : Text → Option Ip) (ctx : Cli) (c : Config)
    → HasSameSwitches c (parse_ips parse_ip ctx (parse_interval ctx (parse_metrics ctx c))).0
unfolding parse_ips parse_interval parse_metrics
start-HasSameSwitches parse_ip ctx c =
    let d = parse_interval ctx (parse_metrics ctx c) in
    let added = add_ips-HasSameSwitches parse_ip (ctx.strings ips_flag) d in
    (ground (arith, added.0), (ground (arith, added.1.0), ground (arith, added.1.1)))

abbrev pub IsGiven : Cli → Flag → Type 0
IsGiven ctx f = ctx.is_set f ≡ true

abbrev pub broker_flags : List Flag
broker_flags =
    broker_enabled_flag ∷ broker_user_flag ∷ broker_password_flag ∷ broker_endpoint_flag ∷ []

abbrev pub db_flags : List Flag
db_flags = db_enabled_flag ∷ db_source_flag ∷ db_migration_url_flag ∷ []

abbrev pub cache_flags : List Flag
cache_flags = cache_enabled_flag ∷ cache_endpoint_flag ∷ cache_password_flag ∷ []

broker-IsGiven :
    (ctx : Cli) (c : Config)
    → c.broker_enabled ≡ false
    → (parse_broker ctx c).0.broker_enabled ≡ true
    → All (IsGiven ctx) broker_flags
unfolding parse_broker
broker-IsGiven ctx c off on = (ground arith, (ground arith, (ground arith, (ground arith, tt))))

db-IsGiven :
    (ctx : Cli) (c : Config)
    → c.store_enabled ≡ false
    → (parse_db ctx c).0.store_enabled ≡ true
    → All (IsGiven ctx) db_flags
unfolding parse_db
db-IsGiven ctx c off on = (ground arith, (ground arith, (ground arith, tt)))

cache-IsGiven :
    (ctx : Cli) (c : Config)
    → c.cache_enabled ≡ false
    → (parse_cache ctx c).0.cache_enabled ≡ true
    → All (IsGiven ctx) cache_flags
unfolding parse_cache
cache-IsGiven ctx c off on = (ground arith, (ground arith, (ground arith, tt)))

-- Each parser leaves the switches of the others alone.
parse_broker_keeps :
    (ctx : Cli) (c : Config)
    → ((parse_broker ctx c).0.store_enabled ≡ c.store_enabled)
      × ((parse_broker ctx c).0.cache_enabled ≡ c.cache_enabled)
unfolding parse_broker
parse_broker_keeps ctx c = (ground arith, ground arith)

parse_db_keeps :
    (ctx : Cli) (c : Config)
    → ((parse_db ctx c).0.broker_enabled ≡ c.broker_enabled)
      × ((parse_db ctx c).0.cache_enabled ≡ c.cache_enabled)
unfolding parse_db
parse_db_keeps ctx c = (ground arith, ground arith)

parse_cache_keeps :
    (ctx : Cli) (c : Config)
    → ((parse_cache ctx c).0.broker_enabled ≡ c.broker_enabled)
      × ((parse_cache ctx c).0.store_enabled ≡ c.store_enabled)
unfolding parse_cache
parse_cache_keeps ctx c = (ground arith, ground arith)

-- A step without an error hands its configuration on.
then_parse-none :
    (r : Config × Option ParseError) (next : Config → Config × Option ParseError)
    → (then_parse r next).1 ≡ none
    → then_parse r next ≡ next r.0
then_parse-none (c, none) next h = refl
then_parse-none (c, some e) next h = cc

-- Setup succeeds only with all three services.
setup-none :
    (c : Config) (b s r : Bool)
    → setup c b s r ≡ none
    → (c.broker_enabled ≡ true) × ((c.store_enabled ≡ true) × (c.cache_enabled ≡ true))
unfolding setup
setup-none c b s r h = (ground arith, (ground arith, ground arith))

-- If Parse succeeds on the default configuration, and then Setup with all services it starts, the
-- command line has set all the flags of the broker, the database and the cache.
pub parse-setup :
    (parse_ip : Text → Option Ip) (ctx : Cli) (procs : ℕ) (b s r : Bool)
    → (parse parse_ip ctx (default_config procs)).1 ≡ none
    → setup (parse parse_ip ctx (default_config procs)).0 b s r ≡ none
    → All (IsGiven ctx) broker_flags × (All (IsGiven ctx) db_flags × All (IsGiven ctx) cache_flags)
unfolding parse default_config
parse-setup parse_ip ctx procs b s r parsed ready =
    let start =
      (parse_ips parse_ip ctx (parse_interval ctx (parse_metrics ctx (default_config procs)))).0 in
    let same = start-HasSameSwitches parse_ip ctx (default_config procs) in
    let after_broker = (parse_broker ctx start).0 in
    let after_db = (parse_db ctx after_broker).0 in
    let first =
      then_parse-none (parse_broker ctx start) (λ c. then_parse (parse_db ctx c) (parse_cache ctx))
        parsed in
    let second =
      then_parse-none (parse_db ctx after_broker) (parse_cache ctx) (rw first at parsed) in
    let on = setup-none (parse_cache ctx after_db).0 b s r (rw (first, second) at ready) in
    let by_broker = parse_broker_keeps ctx start in
    let by_db = parse_db_keeps ctx after_broker in
    let by_cache = parse_cache_keeps ctx after_db in
    (
      broker-IsGiven ctx start same.0 (sym by_db.0 ∙ sym by_cache.0 ∙ on.0),
      (
        db-IsGiven ctx after_broker (by_broker.0 ∙ same.1.0) (sym by_cache.1 ∙ on.1.0),
        cache-IsGiven ctx after_db (by_db.1 ∙ by_broker.1 ∙ same.1.1) on.1.1,
      ),
    )
