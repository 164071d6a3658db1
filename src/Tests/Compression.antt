-- ===== src/Tests/Compression.antt =====
-- Packages that compress by putting a header in front of the bytes.
use dynamiq.Strconv.{parse_bool}
use dynamiq.Settings.{
  cached_setting, is_not_found, get_compressed_messages, get_queue_setting,
  register_value_to_string, queue_config_record_name, read_setting,
}
use dynamiq.Prelude.{false, ◌≡◌, refl, Option, none, some, [], ◌∷◌, String, if◌then◌else◌, ◌==◌}
use dynamiq.Prelude.Effects.{ok}
use dynamiq.Riak.{Bytes}
use dynamiq.App.{find_queue, Env, App}
use dynamiq.Messages.{retrieve_messages}
use dynamiq.Compression.{Zlib, new_zlib_compressor}
use dynamiq.Compression.Hidden.{retrieve_messages-refused}
use dynamiq.Tests.Cluster.{env, riak-StoresObjects, tail_of}
use dynamiq.Stats.{statsd}

-- The header is the byte 120.
abbrev header_error : Bytes → Option String
header_error [] = some "unexpected EOF"
header_error (b ∷ rest) = if b == 120 then none else some "zlib: invalid header"

abbrev zlib : Zlib
zlib = record {
  Writer = Bytes;
  Reader = Bytes;
  new_writer = 120 ∷ [];
  write = λ w value. (120 ∷ value, none);
  close_writer = λ w. w;
  written = λ w. w;
  new_reader = λ text. (tail_of text, header_error text);
  read_from = λ r. (r, none);
  reads_back = λ value h. (refl, refl);
}

-- A message was stored before the queue was made to compress its messages.
abbrev zlib_env : Env
zlib_env = record env { compressor = new_zlib_compressor zlib }

abbrev compressing : App zlib_env
compressing = record {
  server = record {
    maps = ("queue_jobs_config", ("compressed_messages", "true") ∷ []) ∷ [];
    objects = ("7", 104 ∷ 105 ∷ []) ∷ [];
  };
  queues = none;
  topics = none;
  stats = statsd;
  calls = [];
  topics_locked = false;
  drawn = 0;
}

retrieve_messages-refused_example :
    (retrieve_messages zlib_env "jobs" (("7", 0) ∷ []) compressing).0 ≡ ok []
unfolding get_compressed_messages get_queue_setting cached_setting find_queue read_setting
    parse_bool is_not_found queue_config_record_name register_value_to_string
retrieve_messages-refused_example =
    retrieve_messages-refused zlib_env zlib refl riak-StoresObjects "jobs" (("7", 0) ∷ [])
      compressing none refl
      (record { text = "zlib: invalid header"; refused = refl; single = refl }, tt)
