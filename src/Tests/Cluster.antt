-- ===== src/Tests/Cluster.antt =====
-- A cluster that is a list of configuration maps and a list of messages, for runs of the code of
-- app/config.go and app/queue.go.
use dynamiq.Prelude.{
  ◌+◌, ◌≡◌, ◌≢◌, refl, sym, ap, ◌∙◌, subst, Option, none, some, List, [], ◌∷◌, String, false,
  str_eq, if◌then◌else◌, Bool-cases, inl, inr,
}
use dynamiq.Riak.{Bytes, Riak, StoresMaps}
use dynamiq.Messages.RoundTrip.{StoresObjects}
use dynamiq.Stats.{statsd}
use dynamiq.App.{Env, App, lookup, insert, lookup-insert}
use dynamiq.Tests.World.{floats, lane}
use text.Mathlib.TextPositions.{eq_refl}

abbrev pub Registers : Type 0
Registers = List (String × String)

-- A map with its key.
abbrev pub StoredMap : Type 0
StoredMap = String × Registers

abbrev pub registers_of : Option Registers → Registers
registers_of none = []
registers_of (some registers) = registers

abbrev pub error_of : Option Registers → Option String
error_of none = some "not found"
error_of (some registers) = none

abbrev pub registers_at : String → List (String × Registers) → Registers
registers_at key maps = registers_of (lookup key maps)

abbrev pub error_at : String → List (String × Registers) → Option String
error_at key maps = error_of (lookup key maps)

abbrev pub bytes_of : Option Bytes → Bytes
bytes_of none = []
bytes_of (some bytes) = bytes

abbrev pub failure_of : Option Bytes → Option String
failure_of none = some "not found"
failure_of (some bytes) = none

-- The entries under other keys.
abbrev pub without : String → List (String × Bytes) → List (String × Bytes)
without key [] = []
without key ((k, bytes) ∷ rest) =
    if str_eq k key then without key rest else (k, bytes) ∷ without key rest

pub record Server : Type 0 where
  pub maps : List (String × Registers)
  pub objects : List (String × Bytes)

abbrev pub riak : Riak
riak = record {
  Server = Server;
  Bucket = String;
  RMap = StoredMap;
  RObject = String × Bytes;
  nil_bucket = λ bucket. false;
  nil_map = λ m. false;
  not_found = "not found";
  new_bucket_type = λ kind name server. (name, none);
  fetch_map = λ bucket key server. ((key, registers_at key server.maps), error_at key server.maps);
  fetch_register = λ m name. lookup name m.1;
  update_register = λ m name value. (m.0, insert name value m.1);
  set_register = λ m name value. (m.0, insert name value m.1);
  fetch_set = λ m name. none;
  add_to_set = λ m name member. m;
  remove_from_set = λ m name member. m;
  store_map = λ m server. ((m, none), record server { maps = insert m.0 m.1 server.maps });
  destroy_map = λ m server. (none, server);
  index_query_range_page = λ bucket index low high size server. ([], none);
  store_object = λ bucket object server.
      (none, record server { objects = insert object.key object.body server.objects });
  get_object = λ bucket key server.
      ((key, bytes_of (lookup key server.objects)), failure_of (lookup key server.objects));
  delete_object = λ bucket key server. (
    failure_of (lookup key server.objects),
    record server { objects = without key server.objects },
  );
  destroy_object = λ object server. (none, server);
  object_key = λ object. object.0;
  object_body = λ object. object.1;
  set_body = λ object body. (object.0, body);
  conflict = λ object. false;
  siblings = λ object. [];
}

abbrev pub tail_of : Bytes → Bytes
tail_of [] = []
tail_of (_ ∷ rest) = rest

-- Compression puts a byte in front.
abbrev pub env : Env
env = record {
  riak = riak;
  lane = lane;
  floats = floats;
  compressor = record {
    compress = λ body. (0 ∷ body, none);
    decompress = λ body. (tail_of body, none);
  };
  draw = λ n. n + 40;
  statsd_answer = λ call. none;
}

registers_at-insert :
    (key : String) (registers : Registers) (maps : List (String × Registers))
    → registers_at key (insert key registers maps) ≡ registers
registers_at-insert key registers maps =
    ap registers_of (lookup-insert key key registers maps)
    ∙ ap (λ b. registers_of (if b then some registers else lookup key maps)) (eq_refl key)

error_at-insert :
    (key written : String) (registers : Registers) (maps : List (String × Registers))
    → error_at key maps ≢ some "not found"
    → error_at key (insert written registers maps) ≢ some "not found"
error_at-insert key written registers maps h =
    subst (λ o. error_of o ≢ some "not found") (sym (lookup-insert written key registers maps))
      (elim (Bool-cases (str_eq written key)) [ inl e ↦ rw e (λ e'. cc) | inr e ↦ rw e h ])

pub riak-StoresMaps : StoresMaps riak
riak-StoresMaps = record {
  bucket_kept = λ kind name m s. refl;
  register_stored = λ b key name value other s h.
      rw (registers_at-insert key (insert name value (registers_at key s.maps)) s.maps)
        (lookup-insert name other value (registers_at key s.maps));
  map_found = λ b key m s h. error_at-insert key m.0 m.1 s.maps h;
}

pub riak-StoresObjects : StoresObjects riak
riak-StoresObjects = record {
  buckets_kept = λ kind name b object s. refl;
  maps_kept = λ b b' key object s. refl;
  object_stored = λ b object s fresh stored. (
    ap bytes_of (lookup-insert object.key object.key object.body s.objects)
        ∙ ap (λ t. bytes_of (if t then some object.body else lookup object.key s.objects))
            (eq_refl object.key),
    refl,
  );
  body_set = λ o body. refl;
  conflict_kept = λ o body. refl;
}

abbrev pub empty_app : App env
empty_app = record {
  server = record {
    maps = ("queue_jobs_config", ("min_partitions", "1") ∷ []) ∷ [];
    objects = ("7", 1 ∷ []) ∷ [];
  };
  queues = none;
  topics = none;
  stats = statsd;
  calls = [];
  topics_locked = false;
  drawn = 0;
}
