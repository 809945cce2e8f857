-- ===== src/Notifier/Single.antt =====
-- omkit/syncnotifier.py: a notifier has one client at a time.
use omkit_python.Prelude.{
  ℕ, ◌≡◌, ◌⊎◌, refl, inl, inr, true, Option, none, some, [], ◌∷◌, arith, elem, Option-cases,
  Bool-cases, All, nat_eq,
}
use omkit_python.Prelude.Text.{Text, codes}
use omkit_python.Json.{Value, Fields, Items, obj}
use omkit_python.Notifier.{
  Method, post, delete, Request, resource_path, metrics_body, Notifier, new, has_client, get_client,
  send_request, send, send_delete, send_metrics, without, close,
}

-- The client is the only one that is open, if one is.
abbrev IsSingle : Notifier → Type 0
IsSingle n = (n.open_clients ≡ []) ⊎ ((i : ℕ) × ((n.client ≡ some i) × (n.open_clients ≡ i ∷ [])))

-- Every request was sent with the token.
abbrev pub HasToken : Text → Request → Type 0
HasToken token r = r.token ≡ token

pub data Step : Notifier → Notifier → Type 0 where
  sends : (n : Notifier) (t i : Text) (d : Fields) (a : Option ℕ) → Step n (send t i d a n)
  deletes : (n : Notifier) (t i : Text) (a : Option ℕ) → Step n (send_delete t i a n)
  measures :
      (n : Notifier) (m d : Text) (rows : Items) (a : Option ℕ) → Step n (send_metrics m d rows a n)
  close_step : (n : Notifier) → Step n (close n)

pub data Reach (n : Notifier) : Notifier → Type 0 where
  here : Reach n n
  next : {n' n'' : Notifier} → Reach n n' → Step n' n'' → Reach n n''

get_client-IsSingle :
    (n : Notifier)
    → IsSingle n
    → let (i, n') = get_client n in
      (n'.client ≡ some i) × (n'.open_clients ≡ i ∷ []) × (n'.token ≡ n.token) × (n'.sent ≡ n.sent)
unfolding get_client has_client
get_client-IsSingle n v = elim (Option-cases n.client) [
  | inl e ↦ rw (e, get_client) (ground (arith, v, e))
  | inr (i, e) ↦ rw (e, get_client, has_client) (ground (arith, v, e))
]

abbrev IsKept : Text → Notifier → Type 0
IsKept token n = IsSingle n × (n.token ≡ token) × All (HasToken token) n.sent

send_request-IsKept :
    (token : Text) (method : Method) (path : Text) (json : Option Value) (a : Option ℕ)
    (n : Notifier)
    → IsKept token n
    → IsKept token (send_request method path json a n)
unfolding send_request
send_request-IsKept token method path json a n (v, h, hs) =
    let (i, n') = get_client n in
    let (c, o, t, s) = get_client-IsSingle n v in
    let old : All (HasToken token) n'.sent = rw s hs in
    (inr (i, (c, o)), ground (arith, t, h), (ground (arith, t, h), old))

close-IsKept : (token : Text) (n : Notifier) → IsKept token n → IsKept token (close n)
unfolding close has_client without
close-IsKept token n (v, h, hs) = elim (Option-cases n.client) [
  | inl e ↦ rw (e, close) (v, h, hs)
  | inr (i, e) ↦ elim (Bool-cases (has_client n)) [
    | inl open_ ↦ rw (e, close, open_) (ground (arith, v, e), h, hs)
    | inr closed ↦ rw (e, close, closed) (v, h, hs)
  ]
]

Step-IsKept : {n n' : Notifier} (token : Text) → Step n n' → IsKept token n → IsKept token n'
unfolding send send_delete send_metrics
Step-IsKept token (sends n t i d a) v =
    send_request-IsKept token post (resource_path t i) (some (obj d)) a n v
Step-IsKept token (deletes n t i a) v =
    send_request-IsKept token delete (resource_path t i) none a n v
Step-IsKept token (measures n m d rows a) v =
    send_request-IsKept token post (codes "/sync/metrics") (some (metrics_body m d rows)) a n v
Step-IsKept token (close_step n) v = close-IsKept token n v

Reach-IsKept : {n n' : Notifier} (token : Text) → Reach n n' → IsKept token n → IsKept token n'
Reach-IsKept token here v = v
Reach-IsKept token (next r s) v = Step-IsKept token s (Reach-IsKept token r v)

-- In every state that a new notifier can reach by sends, of whatever kind and with whatever answers,
-- and closes, it has one open client at most, which is the one that it keeps, and every request was
-- sent with its token.
pub one_client :
    (base_url token : Text) (n : Notifier) (i j : ℕ)
    → Reach (new base_url token) n
    → elem i n.open_clients ≡ true
    → elem j n.open_clients ≡ true
    → (i ≡ j) × (n.client ≡ some i) × All (HasToken token) n.sent
unfolding new
one_client base_url token n i j r hi hj =
    let (v, h, hs) = Reach-IsKept token r (inl refl, refl, tt) in ground (arith, v, hi, hj, hs)
