-- ===== src/Tests/Sets.antt =====
-- A cluster whose maps hold one set each, for runs of the code that keeps names in Riak.
use dynamiq.Prelude.{
  ◌≡◌, refl, none, some, List, [], ◌∷◌, String, false, not, ◌&&◌, str_eq, eq_iff, if◌then◌else◌,
  arith,
}
use dynamiq.Riak.{Bytes, Riak}
use dynamiq.App.{Env}
use dynamiq.Registry.{listed}
use dynamiq.Registry.Known.{StoresSets}
use dynamiq.Topics.Synced.{KeepsSets}
use dynamiq.Tests.World.{floats, lane}
use text.Mathlib.TextPositions.{eq_refl}

abbrev pub others_than : String → List String → List String
others_than name [] = []
others_than name (value ∷ rest) =
    let kept = others_than name rest in if str_eq name value then kept else value ∷ kept

listed-others_than :
    (name other : String) (values : List String)
    → listed other (others_than name values) ≡ (not (str_eq name other) && listed other values)
unfolding listed
listed-others_than name other [] = ground arith
listed-others_than name other (value ∷ rest) = ground (
  arith,
  eq_iff name value,
  eq_iff name other,
  eq_iff value other,
  listed-others_than name other rest,
)

abbrev pub NamedSet : Type 0
NamedSet = String × List String

abbrev pub set_riak : Riak
set_riak = record {
  Server = String → List String;
  Bucket = String;
  RMap = NamedSet;
  RObject = String × Bytes;
  nil_bucket = λ bucket. false;
  nil_map = λ m. false;
  not_found = "not found";
  new_bucket_type = λ kind name server. (name, none);
  fetch_map = λ bucket key server. ((key, server key), none);
  fetch_register = λ m name. none;
  update_register = λ m name value. m;
  set_register = λ m name value. m;
  fetch_set = λ m name. some m.1;
  add_to_set = λ m name member. (m.0, member ∷ m.1);
  remove_from_set = λ m name member. (m.0, others_than member m.1);
  store_map = λ m server. ((m, none), λ key. if str_eq m.0 key then m.1 else server key);
  destroy_map = λ m server. (none, λ key. if str_eq m.0 key then [] else server key);
  index_query_range_page = λ bucket index low high size server. ([], none);
  store_object = λ bucket object server. (none, server);
  get_object = λ bucket key server. ((key, []), none);
  delete_object = λ bucket key server. (none, server);
  destroy_object = λ object server. (none, server);
  object_key = λ object. object.0;
  object_body = λ object. object.1;
  set_body = λ object body. (object.0, body);
  conflict = λ object. false;
  siblings = λ object. [];
}

pub set_riak-StoresSets : StoresSets set_riak
unfolding listed
set_riak-StoresSets = record {
  bucket_kept = λ kind name m s. refl;
  member_added = λ b key set member other s h. rw (eq_refl key) refl;
  member_removed =
      λ b key set member other s h. rw (eq_refl key) (listed-others_than member other (s key));
  bucket_left = λ kind name m s. refl;
  others_left = λ b key other s h. rw h refl;
}

abbrev pub set_env : Env
set_env = record {
  riak = set_riak;
  lane = lane;
  floats = floats;
  compressor = record { compress = λ body. (body, none); decompress = λ body. (body, none) };
  draw = λ n. n;
  statsd_answer = λ call. none;
}

pub set_riak-KeepsSets : KeepsSets set_riak
set_riak-KeepsSets m set member values s h = (member ∷ m.1, refl)
