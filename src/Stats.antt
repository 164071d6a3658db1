-- ===== src/Stats.antt =====
-- The statistics clients (app/stats/stats.go). The client of github.com/quipo/statsd is not part of
-- the repository: what is modelled is which of its calls each method makes, with its arguments.
use dynamiq.Prelude.{Option, none, some, String}
use dynamiq.Prelude.Int.{ℤ, pos}
use dynamiq.Prelude.Int64.{sub64}

-- The calls of the statsd package.
pub data StatsdCall : Type 0 where
  incr decr gauge_delta gauge : String → ℤ → StatsdCall

-- The two implementations of the interface `Client`.
pub data Client : Type 0 where
  statsd noop : Client

-- The methods of `Client`: the call that each one passes on.
unfoldable pub client_incr : Client → String → ℤ → Option StatsdCall
client_incr statsd id value = some (incr id value)
client_incr noop id value = none

unfoldable pub client_decr : Client → String → ℤ → Option StatsdCall
client_decr statsd id value = some (decr id value)
client_decr noop id value = none

unfoldable pub client_incr_gauge : Client → String → ℤ → Option StatsdCall
client_incr_gauge statsd id value = some (gauge_delta id value)
client_incr_gauge noop id value = none

unfoldable pub client_decr_gauge : Client → String → ℤ → Option StatsdCall
client_decr_gauge statsd id value = some (gauge_delta id (sub64 (pos 0) value))
client_decr_gauge noop id value = none

unfoldable pub client_set_gauge : Client → String → ℤ → Option StatsdCall
client_set_gauge statsd id value = some (gauge id value)
client_set_gauge noop id value = none
