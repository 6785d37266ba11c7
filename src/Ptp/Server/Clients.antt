-- ===== src/Ptp/Server/Clients.antt =====
-- ptp/ptp4u/server/worker.go: the subscriptions of the workers. A `*SubscriptionClient` is an index
-- into a heap, since the queue and the maps share it. The workers' nested maps are one map, keyed by
-- the worker too: an inner map that is missing answers as an empty one.
pub mod Laws
use ntp.Prelude.{
  ℕ, zero, suc, ◌+◌, Bool, true, false, ◌&&◌, Option, none, some, List, [], ◌∷◌, ◌++◌, ◌==◌,
  if◌then◌else◌, length, get_elem?,
}
use ntp.Ptp.Types.{PortIdentity}
use ntp.Ptp.Server.Subscription.{SubscriptionClient}

pub record Key : Type 0 where
  pub worker : ℕ
  pub subscription_type : ℕ
  pub clock_identity : ℕ
  pub port_number : ℕ

unfoldable pub same_key : Key → Key → Bool
same_key k l =
    (k.worker == l.worker)
    && (k.subscription_type == l.subscription_type)
    && (k.clock_identity == l.clock_identity)
    && (k.port_number == l.port_number)

abbrev pub Clients : Type 0
Clients = List (Key × ℕ)

-- `FindSubscription`: none is nil.
unfoldable pub find_subscription : Clients → Key → Option ℕ
find_subscription [] k = none
find_subscription ((l, p) ∷ m) k = if same_key l k then some p else find_subscription m k

-- `RegisterSubscription`: it overwrites.
unfoldable pub register_subscription : Clients → Key → ℕ → Clients
register_subscription [] k p = (k, p) ∷ []
register_subscription ((l, q) ∷ m) k p =
    if same_key l k then (l, p) ∷ m else (l, q) ∷ register_subscription m k p

-- Whether the subscription at a pointer is running (a dangling pointer would not be).
abbrev pub is_running : List SubscriptionClient → ℕ → Bool
is_running [] p = false
is_running (sc ∷ heap) zero = sc.running
is_running (sc ∷ heap) (suc p) = is_running heap p

-- `inventoryClients` of one worker: what it deletes, and the types that it counts, in map order.
unfoldable pub inventory_clients : ℕ → List SubscriptionClient → Clients → Clients × List ℕ
inventory_clients worker heap [] = ([], [])
inventory_clients worker heap ((k, p) ∷ m) =
    let (m', counted) = inventory_clients worker heap m in
    if k.worker == worker
    then (if is_running heap p then ((k, p) ∷ m', k.subscription_type ∷ counted) else (m', counted))
    else ((k, p) ∷ m', counted)
