-- ===== src/Cli/Logs/Query.antt =====
-- The client's statement and the server's, clawpot-cli/src/commands/logs.rs and
-- clawpot-server/src/events/store.rs.
use clawpot.Common.{◌≡◌, ap}
use clawpot.Events.Query.{
  EventFilters, statement, ordered, set_filters, filter_all-statement, query_events,
  query_events-conditions,
}
use clawpot.Events.Query
use clawpot.Cli.Logs.{base, query_sql}

-- The server's `query_events` and the client's build one condition for each filter that is set, in
-- the order of the columns, with the placeholder numbered as its value stands among the parameters;
-- then come the order and the limit, if one is set. The two differ in the white space of their first
-- line only.
pub query_events-query_sql :
    (f : EventFilters)
    → (query_events f ≡ ordered f (statement Query.base (set_filters f)))
      × (query_sql f ≡ ordered f (statement base (set_filters f)))
unfolding query_sql
query_events-query_sql f = (query_events-conditions f, ap (ordered f) (filter_all-statement base f))
