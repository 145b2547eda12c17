-- ===== src/CrawlConfig/Caps.antt =====
-- The loops of crawler/app/parse.go against plain recursion.
use mathlib.Core.List.{append-nil}
use node_util.Base.{
  append_one, suc, ◌≡◌, refl, ap, ◌∙◌, inl, inr, Option-cases, List, [], ◌∷◌, ◌++◌, Option, none,
  some, arith, ◌==◌, if◌then◌else◌, length, length-append, set, replicate,
}
use node_util.Node.{Enode}
use node_util.ScanConfig.{Text}
use node_util.CrawlConfig.{
  Cli, Parsers, Cap, fake_caps, zero_cap, parse_cap, parse_caps, parse_fake_caps, parse_node,
  parse_records,
}

-- All values in order, or `none` if one is missing.
pub traverse : {A B : Type 0} → (A → Option B) → List A → Option (List B)
traverse f [] = some []
traverse f (x ∷ xs) = elim (f x) [
  | none ↦ none
  | some y ↦ elim (traverse f xs) [ none ↦ none | some ys ↦ some (y ∷ ys) ]
]

-- The values after those that are there already.
abbrev after : {B : Type 0} → List B → Option (List B) → Option (List B)
after done none = none
after done (some ys) = some (done ++ ys)

set-length :
    {B : Type 0} (done rest : List B) (z c : B)
    → set (done ++ z ∷ rest) (length done) c ≡ (done ++ c ∷ []) ++ rest
set-length [] rest z c = refl
set-length (x ∷ done) rest z c = ap (◌∷◌ x) (set-length done rest z c)

after_one :
    {B : Type 0} (done : List B) (c : B) (o : Option (List B))
    → after (done ++ c ∷ []) o ≡ after done (elim o [ none ↦ none | some ys ↦ some (c ∷ ys) ])
after_one done c none = refl
after_one done c (some ys) = ap some (append_one done c ys)

parse_caps-traverse :
    (p : Parsers) (done : List Cap) (rest : List Text)
    → parse_caps p (done ++ replicate (length rest) zero_cap) (length done) rest
      ≡ after done (traverse (parse_cap p) rest)
unfolding parse_caps traverse
parse_caps-traverse p done [] = refl
parse_caps-traverse p done (flag ∷ rest) = elim (Option-cases (parse_cap p flag)) [
  | inl e ↦ rw (e, parse_caps, traverse) refl
  | inr (c, e) ↦
      let blank = replicate (length rest) zero_cap in
      let one_more : suc (length done) ≡ length (done ++ c ∷ []) =
        omega (arith, length-append done (c ∷ [])) in
      let later = parse_caps-traverse p (done ++ c ∷ []) rest in
      rw (e, parse_caps, traverse, set-length done blank zero_cap c, one_more)
        (later ∙ after_one done c (traverse (parse_cap p) rest))
]

parse_records-traverse :
    (p : Parsers) (done : List Enode) (rest : List Text)
    → parse_records p done rest ≡ after done (traverse (parse_node p) rest)
unfolding parse_records traverse
parse_records-traverse p done [] = rw (append-nil done) refl
parse_records-traverse p done (source ∷ rest) = elim (Option-cases (parse_node p source)) [
  | inl e ↦ rw (e, parse_records, traverse) refl
  | inr (n, e) ↦
      let later = parse_records-traverse p (done ++ n ∷ []) rest in
      rw (e, parse_records, traverse) (later ∙ after_one done n (traverse (parse_node p) rest))
]

-- What stands for no capabilities.
abbrev pub or_default : List Cap → Option (List Cap) → Option (List Cap)
or_default default none = none
or_default default (some []) = some default
or_default default (some (c ∷ cs)) = some (c ∷ cs)

-- The end of ParseFakeCaps.
abbrev end_caps : List Cap → Option (List Cap) → Option (List Cap)
end_caps default o = elim o [
  | none ↦ none
  | some flags ↦ some (if length flags == 0 then flags ++ default else flags)
]

end_caps-or_default :
    (default : List Cap) (o : Option (List Cap)) → end_caps default o ≡ or_default default o
end_caps-or_default default none = refl
end_caps-or_default default (some []) = refl
end_caps-or_default default (some (c ∷ cs)) = ground arith

after_nothing : {B : Type 0} (o : Option (List B)) → after [] o ≡ o
after_nothing none = refl
after_nothing (some ys) = refl

-- The loops of ParseFakeCaps, which writes to the places of a slice, and of ParseNodes, which
-- appends, give the values of all inputs in their order, or fail when one input is malformed; with
-- no capability given, the default ones stand in.
pub parse-traverse :
    (p : Parsers) (default : List Cap) (ctx : Cli) (sources : List Text)
    → (parse_fake_caps p default ctx
        ≡ or_default default
            (traverse (parse_cap p) (if ctx.is_set fake_caps then ctx.strings fake_caps else [])))
      × (parse_records p [] sources ≡ traverse (parse_node p) sources)
unfolding parse_fake_caps
parse-traverse p default ctx sources =
    let raw = if ctx.is_set fake_caps then ctx.strings fake_caps else [] in
    let caps = parse_caps-traverse p [] raw ∙ after_nothing (traverse (parse_cap p) raw) in
    (
      ap (end_caps default) caps ∙ end_caps-or_default default (traverse (parse_cap p) raw),
      parse_records-traverse p [] sources ∙ after_nothing (traverse (parse_node p) sources),
    )
