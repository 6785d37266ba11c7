-- ===== src/Ptp/Server/Clients/Laws.antt =====
-- The subscription maps as finite maps.
use ntp.Prelude.{
  ℕ, ◌≡◌, refl, true, false, Bool-cases, inl, inr, Option, none, some, List, [], ◌∷◌, ◌==◌,
  if◌then◌else◌, sym, ◌∙◌, arith,
}
use ntp.Ptp.Server.Subscription.{SubscriptionClient}
use ntp.Ptp.Server.Clients.{
  Key, same_key, Clients, find_subscription, register_subscription, inventory_clients, is_running,
}

same_key_self : (k : Key) → same_key k k ≡ true
unfolding same_key
same_key_self k = ground arith

same_key_trans : (k l m : Key) → same_key k l ≡ true → same_key k m ≡ same_key l m
unfolding same_key
same_key_trans k l m h = ground arith

same_key_sym : (k l : Key) → same_key k l ≡ same_key l k
unfolding same_key
same_key_sym k l = ground arith

-- What is registered for a client is found for it.
pub find-register_self :
    (m : Clients) (k : Key) (p : ℕ) → find_subscription (register_subscription m k p) k ≡ some p
unfolding find_subscription register_subscription
find-register_self [] k p = rw (same_key_self k)
find-register_self ((l, q) ∷ m) k p = elim (Bool-cases (same_key l k)) [
  | inl e ↦ rw (e, e)
  | inr e ↦ rw (e, e, find-register_self m k p)
]

pub find-register_other :
    (m : Clients) (k j : Key) (p : ℕ)
    → same_key k j ≡ false
    → find_subscription (register_subscription m k p) j ≡ find_subscription m j
unfolding find_subscription register_subscription
find-register_other [] k j p h = rw (h)
find-register_other ((l, q) ∷ m) k j p h = elim (Bool-cases (same_key l k)) [
  | inl e ↦ rw (e, same_key_trans l k j e, h)
  | inr e ↦ rw (e, find-register_other m k j p h)
]

-- A map has each key once.
abbrev pub Distinct : Clients → Type 0
Distinct [] = Unit
Distinct ((k, p) ∷ m) = (find_subscription m k ≡ none) × Distinct m

pub register-Distinct :
    (m : Clients) (k : Key) (p : ℕ) → Distinct m → Distinct (register_subscription m k p)
unfolding register_subscription find_subscription
register-Distinct [] k p h = (refl, tt)
register-Distinct ((l, q) ∷ m) k p h = elim (Bool-cases (same_key l k)) [
  | inl e ↦ rw (e) h
  | inr e ↦
      rw (e) (find-register_other m k l p (same_key_sym k l ∙ e) ∙ h.0, register-Distinct m k p h.1)
]

-- What the inventory keeps of an answer.
abbrev pub kept : ℕ → List SubscriptionClient → Key → Option ℕ → Option ℕ
kept worker heap k none = none
kept worker heap k (some p) =
    if k.worker == worker then (if is_running heap p then some p else none) else some p

same_key-worker : (k l : Key) → same_key k l ≡ true → k.worker ≡ l.worker
unfolding same_key
same_key-worker k l h = ground arith

pub find-congruent :
    (m : Clients) (k l : Key) → same_key k l ≡ true → find_subscription m k ≡ find_subscription m l
unfolding find_subscription
find-congruent [] k l h = refl
find-congruent ((j, p) ∷ m) k l h =
    rw (same_key_sym j k, same_key_sym j l, same_key_trans k l j h, find-congruent m k l h)

-- The inventory of a worker deletes exactly its subscriptions that are not running.
pub find-inventory :
    (worker : ℕ) (heap : List SubscriptionClient) (m : Clients) (k : Key)
    → Distinct m
    → find_subscription (inventory_clients worker heap m).0 k
      ≡ kept worker heap k (find_subscription m k)
unfolding find_subscription inventory_clients
find-inventory worker heap [] k h = refl
find-inventory worker heap ((l, p) ∷ m) k h =
    let ih = find-inventory worker heap m k h.1 in
    elim (Bool-cases (same_key l k)) [
      | inl e ↦
          let w : k.worker ≡ l.worker = sym (same_key-worker l k e) in
          let gone : find_subscription m k ≡ none = sym (find-congruent m l k e) ∙ h.0 in
          elim (Bool-cases (l.worker == worker)) [
            | inl b ↦ elim (Bool-cases (is_running heap p)) [
              | inl c ↦ rw (b, c, e, w, b, c)
              | inr c ↦ rw (b, c, e, ih, gone, w, b, c)
            ]
            | inr b ↦ rw (b, e, w, b)
          ]
      | inr e ↦ elim (Bool-cases (l.worker == worker)) [
        | inl b ↦ elim (Bool-cases (is_running heap p)) [
          | inl c ↦ rw (b, c, e, ih)
          | inr c ↦ rw (b, c, e, ih)
        ]
        | inr b ↦ rw (b, e, ih)
      ]
    ]
