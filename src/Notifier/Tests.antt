-- ===== src/Notifier/Tests.antt =====
-- Witnesses and tests for the notifier.
use omkit_python.Prelude.{ℕ, ◌≡◌, refl, none, some, [], ◌∷◌, nat_eq, map, All}
use omkit_python.Prelude.Text.{codes}
use omkit_python.Json.{end, nil}
use omkit_python.Notifier.{
  Request, Notifier, queued, failed, unexpected_status, new, rstrip, get_client, has_client,
  send_request, resource_path, send, send_delete, send_metrics, close, without, log_of,
}
use omkit_python.Notifier.Single.{HasToken, here, next, sends, deletes, close_step, one_client}

abbrev first : Notifier
first = send (codes "medication") (codes "m1") end (some 202) (new (codes "http://s//") (codes "k"))

abbrev second : Notifier
second = send_delete (codes "medication") (codes "m1") none (close first)

runs : Unit {0}
unfolding new rstrip get_client has_client send_request resource_path send send_delete send_metrics
    close without log_of
runs = tt

urls :
    map (λ (r : Request). r.url) second.sent
    ≡ codes "http://s/sync/medication/m1" ∷ codes "http://s/sync/medication/m1" ∷ []
unfolding runs
urls = refl

logged :
    (send_metrics (codes "m") (codes "d") nil (some 500) second).logs
    ≡ unexpected_status 500 ∷ failed ∷ queued ∷ []
unfolding runs
logged = refl

second-client : second.open_clients ≡ 1 ∷ []
unfolding runs
second-client = refl

one_client-tested :
    (◌≡◌ {A = ℕ} 1 1) × (second.client ≡ some 1) × All (HasToken (codes "k")) second.sent
unfolding runs
one_client-tested =
    one_client (codes "http://s//") (codes "k") second 1 1
      (next
        (next
          (next here (
            sends (new (codes "http://s//") (codes "k")) (codes "medication") (codes "m1") end
              (some 202)))
          (close_step first))
        (deletes (close first) (codes "medication") (codes "m1") none))
      refl refl
