-- ===== src/Tests/Topics.antt =====
-- Runs of the topics (app/topic.go).
use dynamiq.Prelude.{
  false, true, none, if◌then◌else◌, ◌≡◌, refl, some, List, [], ◌∷◌, String, not, ◌||◌, ◌&&◌, str_eq,
}
use dynamiq.Prelude.Effects.{ok}
use dynamiq.App.{App, Queue, Topic, Topics, lookup, present}
use dynamiq.Registry.{listed, values_of}
use dynamiq.Topics.{
  delete_topic, topic_set_name, subscriber_set_name, subscribe, unsubscribe, list_queues, broadcast,
  sync_topics, skips,
}
use dynamiq.Topics.Synced.{HoldsExactly, sync_topics-HoldsExactly}
use dynamiq.Topics.Subscribers.{topic_config, list_queues-subscribe, list_queues-unsubscribe}
use dynamiq.Riak.{NeverNil}
use dynamiq.Http.Handlers.{handle_delete_topic}
use dynamiq.Http.Releasing.{Releases, handle_delete_topic-Releases}
use dynamiq.Topics.Deletion.{topics_config, delete_topic_lem}
use dynamiq.Topics.Broadcasting.{broadcast_lem, put_each, names_of, insert_each}
use dynamiq.Tests.World.{waiting}
use dynamiq.Tests.Sets.{set_env, set_riak, set_riak-StoresSets, set_riak-KeepsSets}
use dynamiq.Tests.Registry.{two_known}

-- One topic with two subscribers, one of which is in memory.
abbrev pub news_topic : Topic set_env
news_topic = record { name = "news"; config = ("topic_news_config", "jobs" ∷ "mail" ∷ []) }

abbrev pub one_topic : Topics set_env
one_topic = record { config = ("topicsConfig", "news" ∷ []); topic_map = ("news", news_topic) ∷ [] }

abbrev pub jobs_queue : Queue set_env
jobs_queue = record { name = "jobs"; parts = waiting; config = ("queue_jobs_config", []) }

abbrev pub one_queue : List (String × Queue set_env)
one_queue = ("jobs", jobs_queue) ∷ []

abbrev pub with_news : App set_env
with_news = record two_known { queues = some one_queue; topics = some one_topic }

-- The names in Riak are those of two other topics.
sync_topics-HoldsExactly_example :
    HoldsExactly set_env ("jobs" ∷ "mail" ∷ []) with_news (sync_topics set_env with_news)
unfolding skips
sync_topics-HoldsExactly_example =
    sync_topics-HoldsExactly set_env set_riak-KeepsSets with_news one_topic "jobs" ("mail" ∷ [])
      refl refl refl refl refl

list_queues-subscribe_example :
    (queues : List String) × ((subscribe set_env "news" "spam" with_news).0 ≡ ok tt)
    × ((list_queues set_env "news" (subscribe set_env "news" "spam" with_news).1).0 ≡ ok queues)
    × (listed "spam" queues ≡ (
        str_eq "spam" "spam"
        || listed "spam" (
            values_of
              (set_riak.fetch_set (topic_config set_env "news" with_news) subscriber_set_name))))
unfolding lookup
list_queues-subscribe_example =
    list_queues-subscribe set_env set_riak-StoresSets "news" "spam" "spam" with_news one_topic
      news_topic refl refl refl

list_queues-unsubscribe_example :
    (queues : List String) × ((unsubscribe set_env "news" "jobs" with_news).0 ≡ ok tt)
    × ((list_queues set_env "news" (unsubscribe set_env "news" "jobs" with_news).1).0 ≡ ok queues)
    × (listed "mail" queues ≡ (not (str_eq "jobs" "mail") && listed "mail" ("jobs" ∷ "mail" ∷ [])))
unfolding lookup
list_queues-unsubscribe_example =
    list_queues-unsubscribe set_env set_riak-StoresSets "news" "jobs" "mail" with_news one_topic
      news_topic refl refl ("jobs" ∷ "mail" ∷ []) refl refl

broadcast_lem_example :
    (sent : List (String × String)) × (after : App set_env) × (put_each set_env
        ("jobs" ∷ [])
        (104 ∷ 105 ∷ [])
        with_news
      ≡ (ok sent, after))
    × (names_of set_env sent ≡ "jobs" ∷ [])
    × (broadcast set_env "news" (104 ∷ 105 ∷ []) with_news
        ≡ (ok (insert_each set_env sent []), after))
unfolding lookup present
broadcast_lem_example =
    broadcast_lem set_env "news" (104 ∷ 105 ∷ []) with_news one_topic news_topic one_queue refl refl
      refl

set_riak-NeverNil : NeverNil set_riak
set_riak-NeverNil = record { bucket_there = λ kind name s. refl; map_there = λ b key s. refl }

delete_topic_lem_example :
    let (r, app') = delete_topic set_env "news" with_news in
    (r ≡ ok true)
    × (app'.topics_locked ≡ false)
    × (remaining : Topics set_env) × (app'.topics ≡ some remaining)
    × (lookup "mail" remaining.topic_map
        ≡ (if str_eq "news" "mail" then none else lookup "mail" one_topic.topic_map))
    × (listed "mail" (
          values_of
            (set_riak.fetch_set (topics_config set_env set_riak-StoresSets app') topic_set_name))
        ≡ (not (str_eq "news" "mail") && listed "mail" ("jobs" ∷ "mail" ∷ [])))
unfolding lookup present
delete_topic_lem_example =
    delete_topic_lem set_env set_riak-StoresSets "news" "mail" with_news one_topic news_topic
      ("jobs" ∷ "mail" ∷ []) refl refl refl set_riak-NeverNil refl refl

handle_delete_topic-Releases_example :
    Releases set_env (handle_delete_topic set_env "news" with_news)
handle_delete_topic-Releases_example =
    handle_delete_topic-Releases set_env set_riak-NeverNil "news" with_news refl
