-- ===== src/Riak.antt =====
-- github.com/tpjg/goriakpbc: the client of the Riak cluster that holds the configuration and the
-- messages. The package is not part of the repository: its operations are an interface. Errors are
-- named by their texts; a map, a bucket or an object stands for the pointer that the client
-- returns, which may be nil. A request answers from the state of the cluster; one that writes changes that state.
use dynamiq.Prelude.{
  ℕ, ◌≡◌, ◌≢◌, Option, none, some, List, String, Bool, false, str_eq, if◌then◌else◌,
}

-- The bytes of a message.
abbrev pub Bytes : Type 0
Bytes = List ℕ

-- What `Put` fills in before it stores a new object.
pub record NewObject : Type 0 where
  pub key : String
  pub id_int : String
  pub content_type : String
  pub body : Bytes

pub record Riak : Type 1 where
  -- the state of the cluster
  pub Server : Type 0
  pub Bucket : Type 0
  pub RMap : Type 0
  pub RObject : Type 0
  -- whether the pointer to a bucket or to a map is nil
  pub nil_bucket : Bucket → Bool
  pub nil_map : RMap → Bool
  -- the text of `riak.NotFound`
  pub not_found : String
  pub new_bucket_type : String → String → Server → Bucket × Option String
  pub fetch_map : Bucket → String → Server → RMap × Option String
  -- `m.FetchRegister(name)`: the register's value, unless it is nil
  pub fetch_register : RMap → String → Option String
  -- `m.AddRegister(name).Update(value)`
  pub update_register : RMap → String → String → RMap
  -- `m.AddRegister(name).NewValue = value`
  pub set_register : RMap → String → String → RMap
  -- `m.FetchSet(name)`: the set's members, unless it is nil. `GetValue` of an empty set is nil.
  pub fetch_set : RMap → String → Option (List String)
  -- `m.AddSet(name).Add(member)` and `m.AddSet(name).Remove(member)`
  pub add_to_set : RMap → String → String → RMap
  pub remove_from_set : RMap → String → String → RMap
  -- `m.Store()`: the map afterwards, and the error
  pub store_map : RMap → Server → (RMap × Option String) × Server
  pub destroy_map : RMap → Server → Option String × Server
  -- the identifiers of one page of an index query
  pub index_query_range_page :
      Bucket → String → String → String → ℕ → Server → List String × Option String
  pub store_object : Bucket → NewObject → Server → Option String × Server
  pub get_object : Bucket → String → Server → RObject × Option String
  pub delete_object : Bucket → String → Server → Option String × Server
  pub destroy_object : RObject → Server → Option String × Server
  -- `o.Key`, `o.Data` and `o.Data = bytes`
  pub object_key : RObject → String
  pub object_body : RObject → Bytes
  pub set_body : RObject → Bytes → RObject
  pub conflict : RObject → Bool
  pub siblings : RObject → List Bytes

-- What the program relies on when it stores a map: the buckets are where they were, and the map
-- that is fetched then has the register that was written, the others as they were.
pub record StoresMaps (r : Riak) : Type 0 where
  pub bucket_kept :
      (kind name : String) (m : r.RMap) (s : r.Server)
      → r.new_bucket_type kind name (r.store_map m s).1 ≡ r.new_bucket_type kind name s
  pub register_stored :
      (b : r.Bucket) (key name value other : String) (s : r.Server)
      → let m = r.set_register (r.fetch_map b key s).0 name value in
        (r.store_map m s).0.1 ≡ none
        → r.fetch_register (r.fetch_map b key (r.store_map m s).1).0 other ≡ (
            if str_eq name other
            then some value
            else r.fetch_register (r.fetch_map b key s).0 other)
  pub map_found :
      (b : r.Bucket) (key : String) (m : r.RMap) (s : r.Server)
      → (r.fetch_map b key s).1 ≢ some r.not_found
      → (r.fetch_map b key (r.store_map m s).1).1 ≢ some r.not_found

-- What the program relies on wherever it uses a bucket or a map without a look at the error.
pub record NeverNil (r : Riak) : Type 0 where
  pub bucket_there :
      (kind name : String) (s : r.Server) → r.nil_bucket (r.new_bucket_type kind name s).0 ≡ false
  pub map_there :
      (b : r.Bucket) (key : String) (s : r.Server) → r.nil_map (r.fetch_map b key s).0 ≡ false
