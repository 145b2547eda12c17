-- ===== src/CrawlConfig/Tests.antt =====
-- Examples for the flags of the crawler.
use node_util.Base.{◌≡◌, refl, true, List, [], ◌∷◌, some}
use node_util.Base.Int.{pos, to_uint64}
use node_util.Samples.{node_at}
use node_util.ScanConfig.{Text}
use node_util.CrawlConfig.{Cli, Parsers, parse_cap, parse_caps, parse_fake_caps}

-- A text of two bytes is a name and a value.
abbrev split : Text → List Text
split (a ∷ b ∷ []) = (a ∷ []) ∷ (b ∷ []) ∷ []
split t = t ∷ []

abbrev parsers : Parsers
parsers = record {
  split_commas = λ t. t ∷ [];
  split_colons = split;
  has_enode_prefix = λ t. true;
  parse_v4 = λ t. some (node_at 7 1 0).enode;
  atoi = λ t. some (pos 66);
}

abbrev context : Cli
context = record {
  is_set = λ f. true;
  bool = λ f. true;
  string = λ f. 65 ∷ [];
  strings = λ f. (97 ∷ 54 ∷ []) ∷ (98 ∷ 55 ∷ []) ∷ [];
  int = λ f. pos 20;
  uint64 = λ f. 80;
}

two_caps :
    parse_fake_caps parsers [] context
    ≡ some (record { name = 97 ∷ []; version = 66 } ∷ record { name = 98 ∷ []; version = 66 } ∷ [])
unfolding parse_fake_caps parse_caps parse_cap to_uint64
two_caps = refl
