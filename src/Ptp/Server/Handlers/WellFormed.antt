-- ===== src/Ptp/Server/Handlers/WellFormed.antt =====
-- The server's state: no dangling pointers, and grants of the right shape.
use ntp.Prelude.{
  ℕ, zero, suc, ◌^◌, ◌<◌, ◌≡◌, refl, ap, sym, ◌∙◌, Bool-cases, ◌⊎◌, inl, inr, Option, none, some,
  List, [], ◌∷◌, ◌++◌, length, get_elem?, set, length-append, length-set, arith,
}
use ntp.Prelude.Int.{ℤ}
use ntp.Ptp.Server.Subscription.{
  Config, Address, SubscriptionClient, new_subscription_client, init_grant,
}
use ntp.Ptp.Server.Sending.Packets.{new_header-IsHeader}
use ntp.Ptp.Server.Clients.{Key, same_key, find_subscription, register_subscription}
use ntp.Ptp.Server.Clients.Laws.{
  Distinct, find-register_self, find-register_other, register-Distinct, find-congruent,
}
use ntp.Ptp.Server.Handlers.{State}
use ntp.Ptp.Server.Handlers.Grants.{IsGrant}

pub record IsState (s : State) : Type 0 where
  pub distinct : Distinct s.clients
  pub pointers : (k : Key) (p : ℕ) → find_subscription s.clients k ≡ some p → p < length s.heap
  pub grants : (p : ℕ) (sc : SubscriptionClient) → get_elem? s.heap p ≡ some sc → IsGrant sc.grant

module _ {ℓ} {A : Type ℓ} where
  pub get_elem?_of_lt : (xs : List A) (p : ℕ) → p < length xs → (a : A) × (get_elem? xs p ≡ some a)
  get_elem?_of_lt [] p h = elim h [ ]
  get_elem?_of_lt (x ∷ xs) zero h = (x, refl)
  get_elem?_of_lt (x ∷ xs) (suc p) h = get_elem?_of_lt xs p (omega arith)

  pub get_elem?-append_last : (xs : List A) (x : A) → get_elem? (xs ++ x ∷ []) (length xs) ≡ some x
  get_elem?-append_last [] x = refl
  get_elem?-append_last (y ∷ xs) x = get_elem?-append_last xs x

  -- What a longer list, or a list that was written to, has beyond the one before.
  get_elem?-append_cases :
      (xs : List A) (x : A) (p : ℕ) (a : A)
      → get_elem? (xs ++ x ∷ []) p ≡ some a
      → (get_elem? xs p ≡ some a) ⊎ (some x ≡ some a)
  get_elem?-append_cases [] x zero a h = inr h
  get_elem?-append_cases [] x (suc p) a h = inl h
  get_elem?-append_cases (y ∷ xs) x zero a h = inl h
  get_elem?-append_cases (y ∷ xs) x (suc p) a h = get_elem?-append_cases xs x p a h

  get_elem?-set_cases :
      (xs : List A) (i : ℕ) (x : A) (p : ℕ) (a : A)
      → get_elem? (set xs i x) p ≡ some a
      → (get_elem? xs p ≡ some a) ⊎ (some x ≡ some a)
  get_elem?-set_cases [] i x p a h = inl h
  get_elem?-set_cases (y ∷ xs) zero x zero a h = inr h
  get_elem?-set_cases (y ∷ xs) zero x (suc p) a h = inl h
  get_elem?-set_cases (y ∷ xs) (suc i) x zero a h = inl h
  get_elem?-set_cases (y ∷ xs) (suc i) x (suc p) a h = get_elem?-set_cases xs i x p a h

some-injective :
    (P : SubscriptionClient → Type 0) (a b : SubscriptionClient) → P a → some a ≡ some b → P b
some-injective P a b h e =
    let same : a ≡ b = ap (λ (o : Option SubscriptionClient). elim o [ none ↦ a | some x ↦ x ]) e in
    rw (← same) h

-- A write of a subscription whose grant is well-formed.
pub set-IsState :
    (s : State) (p : ℕ) (sc : SubscriptionClient)
    → IsState s
    → IsGrant sc.grant
    → IsState (record s { heap = set s.heap p sc })
set-IsState s p sc h g = record {
  distinct = h.distinct;
  pointers = λ k q e. rw (length-set s.heap p sc) (h.pointers k q e);
  grants = λ q a e. elim (get_elem?-set_cases s.heap p sc q a e) [
    | inl e' ↦ h.grants q a e'
    | inr e' ↦ some-injective (λ x. IsGrant x.grant) sc a g e'
  ];
}

-- A new subscription that is registered.
pub register-IsState :
    (s : State) (k : Key) (sc : SubscriptionClient)
    → IsState s
    → IsGrant sc.grant
    → IsState (record s {
      heap = s.heap ++ sc ∷ [];
      clients = register_subscription s.clients k (length s.heap);
    })
register-IsState s k sc h g = record {
  distinct = register-Distinct s.clients k (length s.heap) h.distinct;
  pointers = λ j q e. elim (Bool-cases (same_key k j)) [
    | inl same ↦
        (let found : some (length s.heap) ≡ some q =
            sym (find-register_self s.clients k (length s.heap))
            ∙ find-congruent (register_subscription s.clients k (length s.heap)) k j same
            ∙ e in
          let last : length s.heap ≡ q = cc in omega (arith, length-append s.heap (sc ∷ [])))
    | inr other ↦
        (let old =
            h.pointers j q (sym (find-register_other s.clients k j (length s.heap) other) ∙ e) in
          omega (arith, length-append s.heap (sc ∷ [])))
  ];
  grants = λ q a e. elim (get_elem?-append_cases s.heap sc q a e) [
    | inl e' ↦ h.grants q a e'
    | inr e' ↦ some-injective (λ x. IsGrant x.grant) sc a g e'
  ];
}

-- The grant that a new subscription has.
pub new_subscription_client-IsGrant :
    (worker : ℕ) (eclisa gclisa : Address) (st : ℕ) (c : Config) (i e now : ℤ)
    → c.clock_identity < 2 ^ 64
    → IsGrant (new_subscription_client worker eclisa gclisa st c i e now).grant
unfolding new_subscription_client init_grant
new_subscription_client-IsGrant worker eclisa gclisa st c i e now h = record {
  header_fits =
      new_header-IsHeader c _ _ _ _ _ h (omega arith) (omega arith) (omega arith) (omega arith)
        (omega arith);
  stated_length = refl;
  tlv = _;
  one_tlv = refl;
  tlv_fits = (
    record { type_fits = refl; length_fits = refl },
    omega arith,
    omega arith,
    omega arith,
    omega arith,
    omega arith,
  );
}
