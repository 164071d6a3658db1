-- ===== src/System/Synced.antt =====
-- The runs of `syncConfig` of all queues and of all topics that return, and `loadQueuesConfig`, over
-- all the queues in memory.
use dynamiq.Prelude.{
  ℕ, ◌≡◌, refl, sym, subst, ap, List, [], ◌∷◌, String, Option, none, some, Option-cases, inl, inr,
  str_eq,
}
use dynamiq.Prelude.Int.{ℤ}
use dynamiq.Prelude.Effects.{ok, panic}
use dynamiq.Clock.{Time}
use dynamiq.Partitions.Exclusive.{Node, sync-NodeIsWhole}
use dynamiq.App.{Env, App, Queue, find_queue, insert}
use dynamiq.Settings.{Method}
use dynamiq.Registry.{sync_queue}
use dynamiq.QueueSync.{
  unsubscribe_each, detach_each, queues_without, drop_queue, drop_unlisted, sync_each_queue,
  init_queue_if_missing, init_missing_queues, over_queues, reconcile, sync_known, sync_queues, keys,
}
use dynamiq.QueueSync.Reconciled.{in_memory}
use dynamiq.QueueSync.Exact.{sync_queue-Syncs, sync_queue-absent}
use dynamiq.System.Keeps.{Keeps, Keeps-bind, Keeps-then, Keeps-when}
use dynamiq.System.Keeps.Topics.{
  topic_rules, Keeps-with_topics, list_queues-Keeps, unsubscribe-Keeps,
}
use dynamiq.System.KeepsOk.{KeepsOk, KeepsOk-Keeps, KeepsOk-bind, KeepsOk-if}
use dynamiq.System.Whole.{
  AllWhole, AllWhole-queues, AllWhole-insert, AllWhole-delete, QueueIsWhole,
  init_queue_from_riak-Keeps,
}

module _ (env : Env) where
  open env use {riak, lane, floats}

  unsubscribe_each-Keeps :
      (queue topic : String) (names : List String)
      → Keeps (AllWhole env) (Unit {0}) (unsubscribe_each env queue topic names)
  unfolding unsubscribe_each
  unsubscribe_each-Keeps queue topic [] = search topic_rules
  unsubscribe_each-Keeps queue topic (name ∷ rest) =
      Keeps-then _ _
        (Keeps-when (str_eq name queue) _ (unsubscribe-Keeps env (AllWhole-queues env) topic queue))
        (unsubscribe_each-Keeps queue topic rest)

  detach_each-Keeps :
      (queue : String) (topics : List String)
      → Keeps (AllWhole env) (Unit {0}) (detach_each env queue topics)
  unfolding detach_each
  detach_each-Keeps queue [] = search topic_rules
  detach_each-Keeps queue (topic ∷ rest) =
      Keeps-bind _ _ (list_queues-Keeps env (AllWhole-queues env) topic) (λ names.
        Keeps-then _ _ (unsubscribe_each-Keeps queue topic names) (detach_each-Keeps queue rest))

  queues_without-whole :
      (o : Option (List (String × Queue env))) (name : String) (app : App env)
      → app.queues ≡ o
      → AllWhole env app
      → AllWhole env (queues_without env o name app).1
  queues_without-whole none name app e h = h
  queues_without-whole (some queues) name app e h = AllWhole-delete env name app queues e h _ refl

  drop_queue-Keeps : (queue : String) → Keeps (AllWhole env) (Unit {0}) (drop_queue env queue)
  unfolding drop_queue
  drop_queue-Keeps queue =
      Keeps-then _ _
        (Keeps-with_topics env (λ topics. detach_each env queue (keys env topics.topic_map))
          (λ topics. detach_each-Keeps queue _))
        (record {
          at = λ app h. queues_without-whole app.queues queue app refl h;
          stuck = λ app h waits. tt;
        })

  drop_unlisted-Keeps :
      (names queues : List String)
      → Keeps (AllWhole env) (Unit {0}) (drop_unlisted env names queues)
  unfolding drop_unlisted
  drop_unlisted-Keeps names [] = search topic_rules
  drop_unlisted-Keeps names (queue ∷ rest) =
      Keeps-then _ _ (Keeps-when _ (drop_queue env queue) (drop_queue-Keeps queue))
        (drop_unlisted-Keeps names rest)

  module _ (random : ℤ → ℤ) where
    init_queue_if_missing-Keeps :
        (name : String) → Keeps (AllWhole env) (Unit {0}) (init_queue_if_missing env random name)
    unfolding init_queue_if_missing
    init_queue_if_missing-Keeps name = search (topic_rules, init_queue_from_riak-Keeps)

    init_missing_queues-Keeps :
        (names : List String)
        → Keeps (AllWhole env) (Unit {0}) (init_missing_queues env random names)
    unfolding init_missing_queues
    init_missing_queues-Keeps [] = search topic_rules
    init_missing_queues-Keeps (name ∷ rest) =
        Keeps-then _ _ (init_queue_if_missing-Keeps name) (init_missing_queues-Keeps rest)

    over_queues-Keeps :
        (o : Option (List (String × Queue env))) (loop : List String → Method env (Unit {0}))
        (app : App env)
        → ((names : List String) → Keeps (AllWhole env) (Unit {0}) (loop names))
        → AllWhole env app
        → AllWhole env (over_queues env o loop app).1
    over_queues-Keeps none loop app k h = h
    over_queues-Keeps (some queues) loop app k h = (k (keys env queues)).at app h

    reconcile-Keeps :
        (names : List String) → Keeps (AllWhole env) (Unit {0}) (reconcile env random names)
    unfolding reconcile
    reconcile-Keeps names = Keeps-then _ _ (init_missing_queues-Keeps names) (record {
      at = λ app.
          over_queues-Keeps app.queues (drop_unlisted env names) app (drop_unlisted-Keeps names);
      stuck = λ app h waits. tt;
    })

    module _ (fuel : ℕ) (now : Time) where
      sync_one :
          (name : String) (app : App env) (queues : List (String × Queue env))
          → (sync_queue env fuel now random name (in_memory env app queues)).0 ≡ ok tt
          → AllWhole env (in_memory env app queues)
          → AllWhole env (sync_queue env fuel now random name (in_memory env app queues)).1
      sync_one name app queues e h =
          elim (Option-cases (find_queue env name (in_memory env app queues))) [
            | inl absent ↦
                let panics : panic ≡ ok tt =
                  rw (sync_queue-absent env fuel now random name (in_memory env app queues) absent)
                    at e in
                cc
            | inr (queue, found) ↦
                let syncs = sync_queue-Syncs env fuel now random name app queues queue found in
                let v : QueueIsWhole env queue = h.whole name queue found in
                let refreshed = insert name (record queue { config = syncs.config }) queues in
                let v_again : QueueIsWhole env (record queue { config = syncs.config }) = record {
                  waiting = v.waiting;
                  free = v.free;
                } in
                let h' =
                  AllWhole-insert env name (in_memory env app queues) queues refl h
                    (record queue { config = syncs.config }) v_again (in_memory env app refreshed)
                    refl in
                let node : Node lane floats = record { part = queue.parts; out = [] } in
                let v' =
                  sync-NodeIsWhole lane floats syncs.read syncs.read.min_partitions fuel now random
                    node refl syncs.high v.waiting (rw syncs.done at e) in
                rw syncs.done (
                  AllWhole-insert env name (in_memory env app refreshed) refreshed refl h' _
                    (record { waiting = v'.0; free = v'.1 }) _ refl)
          ]

      sync_queue-KeepsOk :
          (name : String) → KeepsOk (AllWhole env) (sync_queue env fuel now random name)
      unfolding find_queue
      sync_queue-KeepsOk name = record {
        at = λ app a e h. elim (Option-cases app.queues) [
          | inl none_yet ↦
              let absent : find_queue env name app ≡ none = rw none_yet refl in
              let panics : panic ≡ ok a =
                rw (sync_queue-absent env fuel now random name app absent) at e in
              cc
          | inr (queues, there) ↦
              let same : app ≡ in_memory env app queues =
                ap (λ o. record app { queues = o }) there in
              let one = sync_one name app queues in
              let kept : (sync_queue env fuel now random name app).0 ≡ ok tt
                  → AllWhole env app
                  → AllWhole env (sync_queue env fuel now random name app).1 =
                subst
                  (λ s.
                    (sync_queue env fuel now random name s).0 ≡ ok tt
                    → AllWhole env s
                    → AllWhole env (sync_queue env fuel now random name s).1)
                  (sym same) one in
              kept e h
        ];
      }

      sync_each_queue-KeepsOk :
          (names : List String) → KeepsOk (AllWhole env) (sync_each_queue env fuel now random names)
      unfolding sync_each_queue
      sync_each_queue-KeepsOk [] = record { at = λ app a e h. h }
      sync_each_queue-KeepsOk (name ∷ rest) =
          KeepsOk-bind _ _ (sync_queue-KeepsOk name) (λ _. sync_each_queue-KeepsOk rest)

      over_queues-KeepsOk :
          (o : Option (List (String × Queue env))) (loop : List String → Method env (Unit {0}))
          (app : App env) (a : Unit {0})
          → ((names : List String) → KeepsOk (AllWhole env) (loop names))
          → (over_queues env o loop app).0 ≡ ok a
          → AllWhole env app
          → AllWhole env (over_queues env o loop app).1
      over_queues-KeepsOk none loop app a k e h = h
      over_queues-KeepsOk (some queues) loop app a k e h = (k (keys env queues)).at app a e h

      sync_known-KeepsOk :
          (names : List String) → KeepsOk (AllWhole env) (sync_known env fuel now random names)
      unfolding sync_known
      sync_known-KeepsOk [] = record { at = λ app a e h. h }
      sync_known-KeepsOk (first ∷ rest) =
          KeepsOk-bind _ _ (KeepsOk-Keeps _ (reconcile-Keeps (first ∷ rest))) (λ _. record {
            at = λ app a.
                over_queues-KeepsOk app.queues (sync_each_queue env fuel now random) app a
                  sync_each_queue-KeepsOk;
          })

      pub sync_queues-KeepsOk : KeepsOk (AllWhole env) (sync_queues env fuel now random)
      unfolding sync_queues
      sync_queues-KeepsOk =
          search (KeepsOk-bind, KeepsOk-Keeps, KeepsOk-if, topic_rules, sync_known-KeepsOk) depth 9
