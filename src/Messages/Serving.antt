-- ===== src/Messages/Serving.antt =====
-- `Get` of app/queue.go: the partition that it takes is given back.
use dynamiq.Prelude.{
  ◌≡◌, refl, ◌∙◌, Option, none, some, List, [], ◌∷◌, ◌++◌, String, Bool, true, false, length, ltb,
  if◌then◌else◌, Option-cases, inl, inr,
}
use dynamiq.Prelude.Int.{ℤ, pos}
use dynamiq.Prelude.Effects.{Outcome, ok, panic, blocked, out_of_fuel, Action, continue}
use dynamiq.Clock.{Time}
use dynamiq.Nodes.{Memberlist}
use dynamiq.Partitions.{Settings, Partition, Partitions, Handout, get_partition, push_partition}
use dynamiq.Partitions.Whole.{IsWhole, handed, get_partition-Keeps, push_partition-Keeps}
use dynamiq.App.{Env, App, Queue, find_queue, lookup-insert_self, on_parts}
use dynamiq.Strconv.{itoa}
use dynamiq.Settings.Stored.{find_queue-queues}
use dynamiq.Stats.{client_incr, client_set_gauge}
use dynamiq.Counters.{
  record_fill_ratio, increment_receive_count, set_queue_depth_apr, stats_key, depth_of, fill_suffix,
  received_suffix, approximate_depth_suffix,
}
use dynamiq.Messages.{
  Arrivals, is_nil, to_uint32, get, serve_partition, push_back, partition_settings, with_queue,
  with_queue-lookup,
}
use dynamiq.Messages.Retrieval.{Returns}
use dynamiq.Partitions.Handing.{HandoutHandsOver, get_partition-HandsOver}
use dynamiq.Messages.Passing.{Passes, retrieve_messages-Passes, record_call-Passes}
use dynamiq.Registry.Created.{Reads, partition_settings-Reads}

module _ (env : Env) where
  open env use {riak, lane, floats}

  -- A queue in memory, whose partitions are whole beside those that are handed out.
  pub record Holds (name : String) (out : List ℤ) (app : App env) : Type 0 where
    pub queue : Queue env
    pub found : find_queue env name app ≡ some queue
    pub whole : IsWhole lane queue.parts.partitions queue.parts.partition_count out

  Holds-queues :
      {name : String} {out : List ℤ} (app app' : App env)
      → app'.queues ≡ app.queues
      → Holds name out app
      → Holds name out app'
  Holds-queues {name} app app' e h = record {
    queue = h.queue;
    found = find_queue-queues env name app' app e ∙ h.found;
    whole = h.whole;
  }

  pub on_parts-found :
      {A : Type 0} (name : String) (queue : Queue env) (method : Action (Partitions lane) A)
      (app : App env)
      → find_queue env name app ≡ some queue
      → find_queue env name (on_parts env name queue method app).1
        ≡ some (record queue { parts = (method queue.parts).1 })
  unfolding find_queue on_parts
  on_parts-found name queue method app found = go app.queues refl
    where
      go :
          (o : Option (List (String × Queue env)))
          → app.queues ≡ o
          → find_queue env name (on_parts env name queue method app).1
            ≡ some (record queue { parts = (method queue.parts).1 })
      go none e = let contra = rw e at found in cc
      go (some queues) e = rw e (lookup-insert_self name _ queues)

  push_partition-ok :
      (settings : Settings floats) (now : Time) (w : Partition) (used : Bool)
      (part : Partitions lane)
      → (push_partition lane floats settings now w used part).0 ≡ ok tt
  unfolding push_partition
  push_partition-ok settings now w true part = refl
  push_partition-ok settings now w false part = refl

  -- A call that returns, after which the queue holds its partitions.
  record Gives {A : Type 0} (name : String) (out : List ℤ) (r : Outcome A × App env) : Type 0 where
    answer : A
    returned : r.0 ≡ ok answer
    holds : Holds name out r.1

  push_back-Gives :
      (name : String) (now : Time) (w : Partition) (used : Bool) (out : List ℤ) (app : App env)
      → Holds name (w.id ∷ out) app
      → Gives name out (push_back env name now (some w) used app)
  unfolding push_back
  push_back-Gives name now w used out app h =
      let reads = partition_settings-Reads env name app in
      let push = push_partition lane floats reads.read now w used in
      let give = λ (queue : Queue env). on_parts env name queue push in
      rw (reads.answer, with_queue-lookup env name give app h.found)
        (record {
          answer = tt;
          returned = unfold on_parts in push_partition-ok reads.read now w used h.queue.parts;
          holds = record {
            queue = record h.queue { parts = (push h.queue.parts).1 };
            found = on_parts-found name h.queue push app h.found;
            whole =
                push_partition-Keeps lane floats reads.read now w used h.queue.parts out h.whole;
          };
        })

  fill-Passes :
      (name : String) (size count : ℤ) (app : App env)
      → Passes env app (record_fill_ratio env name size count app)
  unfolding record_fill_ratio
  fill-Passes name size count app =
      let ratio = floats.div (floats.of_int count) (floats.of_int size) in
      let rate = floats.to_int (floats.floor (floats.mul ratio (floats.of_int (pos 100)))) in
      record_call-Passes env client_set_gauge (stats_key name fill_suffix) rate app

  receive-Passes :
      (name : String) (count : ℤ) (app : App env)
      → Passes env app (increment_receive_count env name count app)
  unfolding increment_receive_count
  receive-Passes name count app =
      record_call-Passes env client_incr (stats_key name received_suffix) count app

  depth-Passes :
      (name : String) (count : ℤ) (list : Memberlist) (ids : List String) (app : App env)
      → Passes env app (set_queue_depth_apr env name count list ids app)
  unfolding set_queue_depth_apr
  depth-Passes name count list ids app =
      record_call-Passes env client_set_gauge (stats_key name approximate_depth_suffix)
        (depth_of env count list ids) app

  depth-Gives :
      (name : String) (list : Memberlist) (ids : List String) (out : List ℤ) (app : App env)
      → Holds name out app
      → Gives name out (
          with_queue env name
            (λ queue. set_queue_depth_apr env name queue.parts.partition_count list ids)
            app)
  depth-Gives name list ids out app h =
      let depth =
        λ (queue : Queue env). set_queue_depth_apr env name queue.parts.partition_count list ids in
      let sent = depth-Passes name h.queue.parts.partition_count list ids app in
      rw (with_queue-lookup env name depth app h.found, sent.done)
        (record {
          answer = sent.answer;
          returned = refl;
          holds = Holds-queues app sent.after sent.kept h;
        })

  module _ (name : String) (list : Memberlist) (later : Time) (arrive : List String → Arrivals)
      (size : ℤ) (bucket : riak.Bucket) (out : List ℤ) where
    serve_partition-Gives :
        (handout : Handout) (w : Partition) (app : App env)
        → handout.partition ≡ some w
        → Holds name (w.id ∷ out) app
        → Gives name out (serve_partition env name list later arrive size bucket handout app)
    unfolding serve_partition
    serve_partition-Gives handout w app partition h =
        let (ids, err) =
          riak.index_query_range_page bucket "id_int" (itoa handout.bottom) (itoa handout.top)
            (to_uint32 size) app.server in
        let got = retrieve_messages-Passes env name (arrive ids) app in
        let fill = fill-Passes name size (pos (length ids)) got.after in
        let receive = receive-Passes name (pos (length ids)) fill.after in
        let back =
          push_back-Gives name later w (ltb 0 (length ids)) out receive.after
            (Holds-queues app receive.after (receive.kept ∙ fill.kept ∙ got.kept) h) in
        let depth = depth-Gives name list ids out _ back.holds in
        rw (partition, got.done, fill.done, receive.done, back.returned, depth.returned)
          (record { answer = (got.answer, err); returned = refl; holds = depth.holds })

  -- What `Get` leaves and whether it returns, where `taken` is what `GetPartition` returned.
  record Serves (name : String) (out : List ℤ) (taken : Outcome Handout)
      (r : Outcome (List riak.RObject × Option String) × App env) : Type 0 where
    holds : Holds name out r.1
    returns : (handout : Handout) → taken ≡ ok handout → Returns env r.0

  module _ (name : String) (list : Memberlist) (now later : Time) (arrive : List String → Arrivals)
      (size : ℤ) (out : List ℤ) where
    served :
        (bucket : riak.Bucket) (app : App env) (taken : Outcome Handout)
        → HandoutHandsOver taken
        → Holds name (handed taken ++ out) app
        → Serves name out taken (
            continue taken
              (λ handout.
                if is_nil env handout.err
                then serve_partition env name list later arrive size bucket handout
                else (λ s. (ok ([], handout.err), s)))
              app)
    unfolding serve_partition
    served bucket app (ok handout) over h = elim (Option-cases handout.err) [
      | inl e ↦
          let (w, partition) = rw e at over in
          let gives =
            serve_partition-Gives name list later arrive size bucket out handout w app partition
              (rw (e, partition) at h) in
          rw e (record { holds = gives.holds; returns = λ _ _. (gives.answer, gives.returned) })
      | inr (text, e) ↦ rw e (record { holds = rw e at h; returns = λ _ _. (_, refl) })
    ]
    served bucket app panic over h = record { holds = h; returns = λ handout e. cc }
    served bucket app blocked over h = record { holds = h; returns = λ handout e. cc }
    served bucket app out_of_fuel over h = record { holds = h; returns = λ handout e. cc }

    get-read :
        (app : App env) (h : Holds name out app) (reads : Reads env name app)
        → Serves name out
            (get_partition lane floats reads.read list now h.queue.parts).0
            (get env name list now later arrive size app)
    unfolding get on_parts
    get-read app h reads =
        let take = get_partition lane floats reads.read list now in
        let taken = take h.queue.parts in
        let take_from = λ (queue : Queue env). on_parts env name queue take in
        elim (Option-cases (riak.new_bucket_type "messages" name app.server).1) [
          | inr (text, e) ↦ rw e (record { holds = h; returns = λ handout taken. (_, refl) })
          | inl e ↦
              rw (e, reads.answer, with_queue-lookup env name take_from app h.found)
                (served (riak.new_bucket_type "messages" name app.server).0
                  (on_parts env name h.queue take app).1 taken.0
                  (get_partition-HandsOver lane floats reads.read list now h.queue.parts)
                  (record {
                    queue = record h.queue { parts = taken.1 };
                    found = on_parts-found name h.queue take app h.found;
                    whole =
                        get_partition-Keeps lane floats reads.read reads.high list now h.queue.parts
                          out h.whole;
                  }))
        ]

    -- Take a queue in memory whose partitions, by their identifiers, are those that wait beside
    -- those that are handed out. However a call of `Get` ends, with a failing cluster, read repair,
    -- no messages or a panic, the queue is still in memory and its partitions are those that then
    -- wait beside the same ones that are handed out: the partition that the call takes is given
    -- back. `Get` returns wherever `GetPartition`, under the settings that are read, does.
    pub get-Serves :
        (app : App env) (h : Holds name out app)
        → let (r, app') = get env name list now later arrive size app in
          Holds name out app'
          × (read : Settings floats) × (partition_settings env name app ≡ (ok read, app))
          × ((handout : Handout)
              → (get_partition lane floats read list now h.queue.parts).0 ≡ ok handout
              → Returns env r)
    get-Serves app h =
        let reads = partition_settings-Reads env name app in
        let serves = get-read app h reads in
        (serves.holds, reads.read, reads.answer, serves.returns)
