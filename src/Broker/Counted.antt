-- ===== src/Broker/Counted.antt =====
-- How many subscribers service/broker counts.
use node_util.Base.{
  ℕ, ◌+◌, ◌*◌, ◌^◌, ◌<◌, ◌≡◌, refl, ap, ◌∙◌, true, false, List, [], ◌∷◌, arith, if_cases,
}
use node_util.Broker.{
  TopicFeed, new_topic, subscribe_topic, end_subscription, start_consumer, notify, is_in, Event,
  subscribes, unsubscribes, message, consumer_starts, turn, run,
}

-- The calls of Subscribe before the consumer starts, and after.
unfoldable pub late : List Event → ℕ
late [] = 0
late (subscribes c ∷ es) = late es + 1
late (e ∷ es) = late es

unfoldable pub early : List Event → ℕ
early [] = 0
early (subscribes c ∷ es) = early es + 1
early (consumer_starts ∷ es) = 0
early (e ∷ es) = early es

unfoldable pub after_start : List Event → List Event
after_start [] = []
after_start (consumer_starts ∷ es) = es
after_start (e ∷ es) = after_start es

end_subscription_counts :
    (f : TopicFeed) (c : ℕ)
    → ((end_subscription f c).count ≡ f.count)
      × (((end_subscription f c).delta ≡ f.delta)
          × ((end_subscription f c).has_callback ≡ f.has_callback))
unfolding end_subscription
end_subscription_counts f c =
    if_cases
      (λ (g : TopicFeed).
        (g.count ≡ f.count) × ((g.delta ≡ f.delta) × (g.has_callback ≡ f.has_callback)))
      (is_in c f.called) _ _ (λ _. (refl, (refl, refl))) λ _. (refl, (refl, refl))

subscribe-on :
    (f : TopicFeed) (c : ℕ)
    → f.has_callback ≡ true
    → ((subscribe_topic f c).count ≡ f.count + (1 + f.delta))
      × (((subscribe_topic f c).delta ≡ f.delta) × ((subscribe_topic f c).has_callback ≡ true))
unfolding subscribe_topic
subscribe-on f c on = ground arith

subscribe-off :
    (f : TopicFeed) (c : ℕ)
    → f.has_callback ≡ false
    → f.delta + 1 < 2 ^ 32
    → ((subscribe_topic f c).count ≡ f.count)
      × (((subscribe_topic f c).delta ≡ f.delta + 1) × ((subscribe_topic f c).has_callback ≡ false))
unfolding subscribe_topic
subscribe-off f c off small = ground arith

one_more : (n d : ℕ) → (n + 1) * (1 + d) ≡ (1 + d) + n * (1 + d)
one_more n d = grind arith

-- Once the consumer runs.
run-late :
    (es : List Event) (f : TopicFeed)
    → f.has_callback ≡ true
    → (run f es).count ≡ f.count + late es * (1 + f.delta)
unfolding run turn late start_consumer notify
run-late [] f on = omega arith
run-late (subscribes c ∷ es) f on =
    let step = subscribe-on f c on in
    let rest = run-late es (subscribe_topic f c) step.1.1 in
    let same : (run (subscribe_topic f c) es).count
        ≡ (subscribe_topic f c).count + late es * (1 + f.delta) =
      rest ∙ ap (λ d. (subscribe_topic f c).count + late es * (1 + d)) step.1.0 in
    omega (arith, same, step.0, one_more (late es) f.delta)
run-late (unsubscribes c ∷ es) f on =
    let step = end_subscription_counts f c in
    run-late es (end_subscription f c) (step.1.1 ∙ on)
    ∙ (ap (λ n. n + late es * (1 + (end_subscription f c).delta)) step.0
        ∙ ap (λ d. f.count + late es * (1 + d)) step.1.0)
run-late (message m ∷ es) f on = run-late es (notify f m) on
run-late (consumer_starts ∷ es) f on = run-late es (start_consumer f) refl

run-early :
    (es : List Event) (f : TopicFeed)
    → f.has_callback ≡ false
    → f.delta + early es < 2 ^ 32
    → (run f es).count ≡ f.count + late (after_start es) * (1 + (f.delta + early es))
unfolding run turn late early after_start start_consumer notify
run-early [] f off small = omega arith
run-early (subscribes c ∷ es) f off small =
    let step = subscribe-off f c off (omega arith) in
    let rest = run-early es (subscribe_topic f c) step.1.1 (omega (arith, step.1.0)) in
    rest
    ∙ (ap (λ n. n + late (after_start es) * (1 + ((subscribe_topic f c).delta + early es))) step.0
        ∙ ap (λ d. f.count + late (after_start es) * (1 + d)) (omega (arith, step.1.0)))
run-early (unsubscribes c ∷ es) f off small =
    let step = end_subscription_counts f c in
    run-early es (end_subscription f c) (step.1.1 ∙ off) (omega (arith, step.1.0))
    ∙ (ap (λ n. n + late (after_start es) * (1 + ((end_subscription f c).delta + early es))) step.0
        ∙ ap (λ d. f.count + late (after_start es) * (1 + (d + early es))) step.1.0)
run-early (message m ∷ es) f off small = run-early es (notify f m) off small
run-early (consumer_starts ∷ es) f off small =
    run-late es (start_consumer f) refl ∙ ap (λ d. f.count + late es * (1 + d)) (omega arith)

-- If fewer than 2 ^ 31 subscribe before the consumer of a topic starts, its count is the number of
-- those who subscribe later, times one more than the number of those who came before, whoever
-- unsubscribes: it counts the early ones again with each late one, and never goes down.
pub run-count :
    (es : List Event)
    → early es < 2 ^ 31
    → (run new_topic es).count ≡ late (after_start es) * (1 + early es)
unfolding new_topic
run-count es small =
    let none_yet : 0 + early es ≡ early es = omega arith in
    run-early es new_topic refl (omega arith)
    ∙ (ap (λ d. 0 + late (after_start es) * (1 + d)) none_yet ∙ omega arith)
