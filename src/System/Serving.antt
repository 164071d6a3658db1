-- ===== src/System/Serving.antt =====
-- `Get` of app/queue.go, over all the queues in memory.
use dynamiq.Prelude.{
  ◌≡◌, refl, sym, ap, eq_iff, ◌∙◌, List, [], String, none, some, str_eq, Bool-cases, Option-cases,
  inl, inr,
}
use dynamiq.Prelude.Int.{ℤ}
use dynamiq.Clock.{Time}
use dynamiq.Nodes.{Memberlist}
use dynamiq.Partitions.{get_partition}
use dynamiq.App.{Env, App, Queue, find_queue, on_parts}
use dynamiq.Messages.{Arrivals, get, with_queue-lookup}
use dynamiq.Messages.Serving.{get-Serves}
use dynamiq.Registry.Created.{partition_settings-Reads}
use dynamiq.System.Keeps.{Keeps}
use dynamiq.System.Others.{get-Keeps_others}
use dynamiq.System.Unlocked.{get-IsFree}
use dynamiq.Prelude.Effects.{Stuck}
use dynamiq.System.Whole.{AllWhole, QueueIsWhole}

module _ (env : Env) (name : String) (list : Memberlist) (now later : Time)
    (arrive : List String → Arrivals) (size : ℤ) where
  open env use {riak, lane, floats}

  -- A queue that is not there is a nil pointer.
  get-absent :
      (app : App env)
      → find_queue env name app ≡ none
      → let (r, app') = get env name list now later arrive size app in (app' ≡ app) × (Stuck r → ⊥)
  unfolding get
  get-absent app absent =
      let reads = partition_settings-Reads env name app in
      let take_from = λ (queue : Queue env).
        on_parts env name queue (get_partition lane floats reads.read list now) in
      elim (Option-cases (riak.new_bucket_type "messages" name app.server).1) [
        | inr (text, e) ↦ rw e (refl, λ waits. waits)
        | inl e ↦
            rw (e, reads.answer, with_queue-lookup env name take_from app absent)
              (refl, λ waits. waits)
      ]

  pub get-Keeps : Keeps (AllWhole env) ⊥ (get env name list now later arrive size)
  get-Keeps = record {
    at = λ app h. record {
      whole = λ other queue found. elim (Bool-cases (str_eq name other)) [
        | inr different ↦ h.whole other queue (
            sym (
              (get-Keeps_others env name other different (find_queue env other app) list now later
                  arrive size).at
                app refl)
            ∙ found)
        | inl same ↦
            let is_name : other ≡ name = sym ((eq_iff name other).0 same) in
            own app h queue (
              ap (λ n. find_queue env n (get env name list now later arrive size app).1)
                (sym is_name)
              ∙ found)
      ];
    };
    stuck = λ app h waits. elim (Option-cases (find_queue env name app)) [
      | inl absent ↦ (get-absent app absent).1 waits
      | inr (queue, found) ↦
          (get-IsFree env name list now later arrive size app queue found
              (h.whole name queue found).free).0
            waits
    ];
  }
    where
      own :
          (app : App env)
          → AllWhole env app
          → (queue : Queue env)
          → find_queue env name (get env name list now later arrive size app).1 ≡ some queue
          → QueueIsWhole env queue
      own app h queue found = elim (Option-cases (find_queue env name app)) [
        | inl absent ↦
            h.whole name queue (ap (find_queue env name) (sym ((get-absent app absent).0)) ∙ found)
        | inr (before, there) ↦
            let whole = h.whole name before there in
            let (holds, _, _, _) =
              get-Serves env name list now later arrive size [] app
                (record { queue = before; found = there; whole = whole.waiting }) in
            let same : some holds.queue ≡ some queue = sym holds.found ∙ found in
            let is_it : holds.queue ≡ queue = cc same in
            record {
              waiting = rw (← is_it) holds.whole;
              free =
                  (get-IsFree env name list now later arrive size app before there whole.free).1
                    queue found;
            }
      ]
