-- ===== src/Tests/Outbox.antt =====
-- Runs of the outbox store of foundation/outbox.py with two pending events.
use shema_business_platform.Prelude.{
  ℕ, List, ◌≡◌, ◌≢◌, refl, ap, true, false, none, some, [], ◌∷◌, String, Datetime, add_seconds, Eq,
  ok, str_eq, str_eq_iff, is_blank, In, inl, arith,
}
use shema_business_platform.Prelude.Dict.{lookup, insert, values}
use shema_business_platform.Foundation.Outbox.{
  OutboxEvent, OutboxDelivery, OutboxStore, pending, append, claim_pending, pending_events,
  is_leased, mark_published, publish,
}
use shema_business_platform.Foundation.Outbox.Leases.{claims_disjoint, claim_pending_complete}
use shema_business_platform.Foundation.Outbox.Keys.{IsKeyed}
use shema_business_platform.Foundation.Outbox.Forever.{OutboxCall, outbox_after, claim_publish}

different : (s t : String) → str_eq s t ≡ false → s ≢ t
different s t h e = ground (arith, str_eq_iff s t)

abbrev text_eq : Eq String
text_eq = record { beq = str_eq; beq_iff = str_eq_iff }

abbrev at : ℕ → Datetime
at n = record { tz_aware = true; micros = n }

abbrev event : String → String → OutboxEvent String
event id text = record {
  event_id = id;
  event_type = "job.completed";
  aggregate_type = "job";
  aggregate_id = "job-1";
  payload = text;
  occurred_at = at 5;
  status = pending;
}

abbrev claimed : String → String → ℕ → OutboxDelivery String
claimed w id now = record {
  event = event id "text";
  attempt = 1;
  worker_id = w;
  lease_until = add_seconds (at now) 60;
}

abbrev store : OutboxStore String
store = record { events = ("e1", event "e1" "text") ∷ ("e2", event "e2" "text") ∷ []; leases = [] }

abbrev store_1 : OutboxStore String
store_1 = record store { leases = ("e1", claimed "worker-1" "e1" 10) ∷ [] }

abbrev store_2 : OutboxStore String
store_2 = record store {
  leases = ("e1", claimed "worker-1" "e1" 10) ∷ ("e2", claimed "worker-2" "e2" 20) ∷ [];
}

abbrev store_0 : OutboxStore String
store_0 = record { events = ("e1", event "e1" "text") ∷ []; leases = [] }

claim_1 :
    claim_pending "worker-1" 60 (at 10) 1 store ≡ (ok (claimed "worker-1" "e1" 10 ∷ []), store_1)
unfolding claim_pending lookup insert values is_blank
claim_1 = refl

claim_2 :
    claim_pending "worker-2" 60 (at 20) 5 store_1 ≡ (ok (claimed "worker-2" "e2" 20 ∷ []), store_2)
unfolding claim_pending lookup insert values is_blank
claim_2 = refl

claims_disjoint_example : ◌≢◌ {A = String} "e1" "e2"
claims_disjoint_example =
    claims_disjoint "worker-1" "worker-2" 60 60 1 5 (at 10) (at 20) store store_1 store_2
      (claimed "worker-1" "e1" 10 ∷ []) (claimed "worker-2" "e2" 20 ∷ []) claim_1 claim_2
      (omega arith) (claimed "worker-1" "e1" 10) (claimed "worker-2" "e2" 20) (inl refl) (inl refl)

e1_pending : In (event "e1" "text") (pending_events store_1)
unfolding pending_events values
e1_pending = inl refl

claim_pending_complete_example : is_leased store_2.leases (at 20) "e1" ≡ true
claim_pending_complete_example =
    claim_pending_complete "worker-2" 60 5 (at 20) store_1 store_2 (claimed "worker-2" "e2" 20 ∷ [])
      claim_2 (omega arith) (event "e1" "text") e1_pending

store-IsKeyed : IsKeyed store.events
unfolding lookup
store-IsKeyed = (refl, refl, (refl, refl, tt))

claim_publish_example :
    let (r, s) = mark_published "e1" "worker-1" (at 30) store_1 in
    (r ≡ ok (publish (event "e1" "text")))
    × (lookup "e1" s.events ≡ some (publish (event "e1" "text")))
    × (lookup "e1" s.leases ≡ none)
    × ((cs : List (OutboxCall String))
        → (lookup "e1" (outbox_after text_eq cs s).events ≡ some (publish (event "e1" "text")))
          × ((e : OutboxEvent String)
              → In e (pending_events (outbox_after text_eq cs s))
              → e.event_id ≢ "e1")
          × ((w : String) (secs limit : ℕ) (t : Datetime) (s' : OutboxStore String)
                (ds : List (OutboxDelivery String)) (d : OutboxDelivery String)
              → claim_pending w secs t limit (outbox_after text_eq cs s) ≡ (ok ds, s')
              → In d ds
              → d.event.event_id ≢ "e1"))
claim_publish_example =
    claim_publish text_eq "worker-1" 60 1 (at 10) (at 30) store store_1
      (claimed "worker-1" "e1" 10 ∷ []) (claimed "worker-1" "e1" 10) store-IsKeyed claim_1
      (inl refl) (omega arith)

append_2 : append text_eq (event "e2" "text") store_0 ≡ (ok (event "e2" "text"), store)
unfolding append lookup insert
append_2 = refl

texts_differ : event "e1" "text" ≢ event "e1" "other"
texts_differ e = different "text" "other" refl (ap (λ (x : OutboxEvent String). x.payload) e)

e1_stored : lookup "e1" store.events ≡ some (event "e1" "text")
unfolding lookup
e1_stored = refl
