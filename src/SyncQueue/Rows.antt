-- ===== src/SyncQueue/Rows.antt =====
-- The table of requests of src/domain/sync_queue.py: its keys, and how many requests of a connector
-- are in flight.
use qnsc_kb_backend.Prelude.{
  ℕ, ◌+◌, ◌≡◌, refl, sym, ap, ◌≢◌, inl, inr, true, false, ◌&&◌, some, List, [], ◌∷◌, ◌++◌, map,
  arith, nat_beq, if◌then◌else◌, Bool-cases, nat_eq, string_eq, option_eq,
}
use qnsc_kb_backend.SyncQueue.{
  SyncRequest, in_flight, is_queued, find_request, update_request, busy,
}

-- No row has the id.
abbrev pub IsAbsent : ℕ → List SyncRequest → Type 0
IsAbsent id [] = Unit
IsAbsent id (r ∷ rest) = (r.id ≢ id) × IsAbsent id rest

-- The primary key.
abbrev pub HasKeys : List SyncRequest → Type 0
HasKeys [] = Unit
HasKeys (r ∷ rest) = IsAbsent r.id rest × HasKeys rest

unfoldable pub weight : ℕ → SyncRequest → ℕ
weight connector r = if nat_beq r.connector_id connector && in_flight r.status then 1 else 0

-- The requests of the connector that are dispatched or running.
abbrev pub in_flight_count : ℕ → List SyncRequest → ℕ
in_flight_count connector [] = 0
in_flight_count connector (r ∷ rest) = weight connector r + in_flight_count connector rest

pub in_flight_count-append :
    (connector : ℕ) (xs ys : List SyncRequest)
    → in_flight_count connector (xs ++ ys)
      ≡ in_flight_count connector xs + in_flight_count connector ys
in_flight_count-append connector [] ys = omega arith
in_flight_count-append connector (x ∷ xs) ys = omega (arith, in_flight_count-append connector xs ys)

update_request-absent :
    (id : ℕ) (f : SyncRequest → SyncRequest) (rows : List SyncRequest)
    → IsAbsent id rows
    → update_request id f rows ≡ rows
unfolding update_request
update_request-absent id f [] s = refl
update_request-absent id f (r ∷ rest) s =
    let other : nat_beq r.id id ≡ false = ground arith in
    rw other (ap (λ t. r ∷ t) (update_request-absent id f rest s.1))

-- An assignment to one row moves the count by that row's weight.
pub in_flight_count-update :
    (connector id : ℕ) (f : SyncRequest → SyncRequest) (rows : List SyncRequest) (r : SyncRequest)
    → HasKeys rows
    → find_request id rows ≡ some r
    → in_flight_count connector (update_request id f rows) + weight connector r
      ≡ in_flight_count connector rows + weight connector (f r)
unfolding update_request find_request
in_flight_count-update connector id f [] r k e = absurd (cc e)
in_flight_count-update connector id f (q ∷ rest) r k e = elim (Bool-cases (nat_beq q.id id)) [
  | inl same ↦
      let here : q.id ≡ id = ground arith in
      let gone : IsAbsent id rest = rw here at k.0 in
      rw same (ground (arith, update_request-absent id f rest gone))
  | inr other ↦ rw other (ground (arith, in_flight_count-update connector id f rest r k.1))
]

pub find_request-id :
    (id : ℕ) (rows : List SyncRequest) (r : SyncRequest) → find_request id rows ≡ some r → r.id ≡ id
unfolding find_request
find_request-id id [] r e = absurd (cc e)
find_request-id id (q ∷ rest) r e = ground (arith, find_request-id id rest r)

not_busy-absent :
    (request : SyncRequest) (rows : List SyncRequest)
    → IsAbsent request.id rows
    → busy request rows ≡ false
    → in_flight_count request.connector_id rows ≡ 0
unfolding busy weight
not_busy-absent request [] s h = refl
not_busy-absent request (r ∷ rest) s h = ground (arith, not_busy-absent request rest s.1)

-- Where no other request of its connector is in flight and it is queued itself, none is.
pub in_flight_count-not_busy :
    (request : SyncRequest) (rows : List SyncRequest)
    → HasKeys rows
    → find_request request.id rows ≡ some request
    → is_queued request.status ≡ true
    → busy request rows ≡ false
    → in_flight_count request.connector_id rows ≡ 0
unfolding busy find_request weight
in_flight_count-not_busy request [] k e q h = absurd (cc e)
in_flight_count-not_busy request (r ∷ rest) k e q h = elim (Bool-cases (nat_beq r.id request.id)) [
  | inl same ↦
      let here : r.id ≡ request.id = ground arith in
      let gone : IsAbsent request.id rest = rw here at k.0 in
      ground (arith, not_busy-absent request rest gone)
  | inr other ↦ ground (arith, in_flight_count-not_busy request rest k.1)
]

IsAbsent-update :
    (id i : ℕ) (f : SyncRequest → SyncRequest) (rows : List SyncRequest)
    → ((r : SyncRequest) → (f r).id ≡ r.id)
    → IsAbsent i rows
    → IsAbsent i (update_request id f rows)
unfolding update_request
IsAbsent-update id i f [] keep s = tt
IsAbsent-update id i f (r ∷ rest) keep s =
    (ground (arith, keep r), IsAbsent-update id i f rest keep s.1)

-- An assignment that leaves the key alone keeps the keys distinct.
pub HasKeys-update :
    (id : ℕ) (f : SyncRequest → SyncRequest) (rows : List SyncRequest)
    → ((r : SyncRequest) → (f r).id ≡ r.id)
    → HasKeys rows
    → HasKeys (update_request id f rows)
unfolding update_request
HasKeys-update id f [] keep s = tt
HasKeys-update id f (r ∷ rest) keep s = elim (Bool-cases (nat_beq r.id id)) [
  | inl same ↦
      rw same
        (rw (keep r) (IsAbsent-update id r.id f rest keep s.0), HasKeys-update id f rest keep s.1)
  | inr other ↦
      rw other (IsAbsent-update id r.id f rest keep s.0, HasKeys-update id f rest keep s.1)
]

IsAbsent-append :
    (i : ℕ) (xs : List SyncRequest) (r : SyncRequest)
    → IsAbsent i xs
    → r.id ≢ i
    → IsAbsent i (xs ++ r ∷ [])
IsAbsent-append i [] r s h = (h, tt)
IsAbsent-append i (x ∷ xs) r s h = (s.0, IsAbsent-append i xs r s.1 h)

pub HasKeys-append :
    (xs : List SyncRequest) (r : SyncRequest)
    → HasKeys xs
    → IsAbsent r.id xs
    → HasKeys (xs ++ r ∷ [])
HasKeys-append [] r k s = (tt, tt)
HasKeys-append (x ∷ xs) r k s =
    (IsAbsent-append x.id xs r k.0 (λ e. s.0 (sym e)), HasKeys-append xs r k.1 s.1)

IsAbsent-map :
    (i : ℕ) (f : SyncRequest → SyncRequest) (rows : List SyncRequest)
    → ((r : SyncRequest) → (f r).id ≡ r.id)
    → IsAbsent i rows
    → IsAbsent i (map f rows)
IsAbsent-map i f [] keep s = tt
IsAbsent-map i f (r ∷ rest) keep s = (rw (keep r) s.0, IsAbsent-map i f rest keep s.1)

pub HasKeys-map :
    (f : SyncRequest → SyncRequest) (rows : List SyncRequest)
    → ((r : SyncRequest) → (f r).id ≡ r.id)
    → HasKeys rows
    → HasKeys (map f rows)
HasKeys-map f [] keep s = tt
HasKeys-map f (r ∷ rest) keep s =
    (rw (keep r) (IsAbsent-map r.id f rest keep s.0), HasKeys-map f rest keep s.1)
