-- ===== src/Notifier.antt =====
-- omkit/syncnotifier.py: `SyncNotifier` with its HTTP client. httpx is what its calls bring: a status
-- or an exception, which the methods only log. The three methods that notify make tasks of the
-- sends, of which each gets the client and makes its request in one step. A client is a number.
mod Single
mod Tests
use omkit_python.Prelude.{
  ℕ, suc, Bool, true, false, Option, none, some, List, [], ◌∷◌, ◌++◌, if◌then◌else◌, elem, ◌==◌,
  nat_eq,
}
use omkit_python.Prelude.Text.{Text, codes}
use omkit_python.Json.{Value, Fields, Items, str, arr, obj, field, end}

-- `base_url.rstrip("/")`
unfoldable pub rstrip : Text → Text
rstrip [] = []
rstrip (c ∷ s) = elim (rstrip s) [ [] ↦ if c == b'/' then [] else c ∷ [] | d ∷ t ↦ c ∷ d ∷ t ]

pub data Method : Type 0 where
  post delete : Method

-- A request of a client, with the header `X-Service-Token`.
pub record Request : Type 0 where
  pub client : ℕ
  pub method : Method
  pub url : Text
  pub json : Option Value
  pub token : Text

pub data Log : Type 0 where
  queued failed : Log
  unexpected_status : ℕ → Log

-- The notifier, the clients that are open, the next one, and what was sent and logged.
pub record Notifier : Type 0 where
  pub base_url : Text
  pub token : Text
  pub client : Option ℕ
  pub open_clients : List ℕ
  pub next : ℕ
  pub sent : List Request
  pub logs : List Log

unfoldable pub new : (base_url token : Text) → Notifier
unfolding rstrip
new base_url token = record {
  base_url = rstrip base_url;
  token = token;
  client = none;
  open_clients = [];
  next = 0;
  sent = [];
  logs = [];
}

-- `self._client is not None and not self._client.is_closed`
unfoldable pub has_client : Notifier → Bool
has_client n = elim n.client [ none ↦ false | some i ↦ elem i n.open_clients ]

-- `_get_client`
unfoldable pub get_client : Notifier → ℕ × Notifier
unfolding has_client
get_client n =
    let created : ℕ × Notifier = (
      n.next,
      record n { client = some n.next; open_clients = n.next ∷ n.open_clients; next = suc n.next },
    ) in
    elim n.client [ none ↦ created | some i ↦ if has_client n then (i, n) else created ]

-- What is logged of an answer.
unfoldable pub log_of : Option ℕ → Log
log_of none = failed
log_of (some status) = if status == 202 then queued else unexpected_status status

unfoldable pub send_request : Method → Text → Option Value → Option ℕ → Notifier → Notifier
unfolding get_client log_of
send_request method path json answer n =
    let (i, n') = get_client n in
    let r : Request = record {
      client = i;
      method = method;
      url = n'.base_url ++ path;
      json = json;
      token = n'.token;
    } in
    record n' { sent = r ∷ n'.sent; logs = log_of answer ∷ n'.logs }

-- `/sync/{resource_type}/{resource_id}`
unfoldable pub resource_path : Text → Text → Text
resource_path resource_type resource_id = codes "/sync/" ++ (resource_type ++ (b'/' ∷ resource_id))

-- `_send`
unfoldable pub send : (resource_type resource_id : Text) → Fields → Option ℕ → Notifier → Notifier
unfolding resource_path send_request
send resource_type resource_id data_ answer n =
    send_request post (resource_path resource_type resource_id) (some (obj data_)) answer n

-- `_send_delete`
unfoldable pub send_delete : (resource_type resource_id : Text) → Option ℕ → Notifier → Notifier
unfolding resource_path send_request
send_delete resource_type resource_id answer n =
    send_request delete (resource_path resource_type resource_id) none answer n

unfoldable pub metrics_body : (metric_name date : Text) → Items → Value
metrics_body metric_name date rows = obj (
    field (codes "metric_name") (str metric_name)
      (field (codes "date") (str date) (field (codes "rows") (arr rows) end)))

-- `_send_metrics`
unfoldable pub send_metrics : (metric_name date : Text) → Items → Option ℕ → Notifier → Notifier
unfolding send_request metrics_body
send_metrics metric_name date rows answer n =
    send_request post (codes "/sync/metrics") (some (metrics_body metric_name date rows)) answer n

unfoldable pub without : ℕ → List ℕ → List ℕ
without i [] = []
without i (j ∷ js) = let rest = without i js in if i == j then rest else j ∷ rest

-- `close`
unfoldable pub close : Notifier → Notifier
unfolding has_client without
close n = elim n.client [
  | none ↦ n
  | some i ↦ if has_client n then record n { open_clients = without i n.open_clients } else n
]
