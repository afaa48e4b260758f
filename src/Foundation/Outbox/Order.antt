-- ===== src/Foundation/Outbox/Order.antt =====
-- `sorted` permutes: an event stands in the sorted list exactly when it stands in the list.
use shema_business_platform.Prelude.{◌↔◌, inl, inr, List, [], ◌∷◌, In, Bool-cases}
use shema_business_platform.Foundation.Outbox.{OutboxEvent, key_le, insert_sorted, sort_events}

module _ {P : Type 0} where
  In-insert_sorted :
      (e x : OutboxEvent P) (xs : List (OutboxEvent P)) → In x (insert_sorted e xs) ↔ In x (e ∷ xs)
  unfolding insert_sorted
  In-insert_sorted e x [] = (λ h. h, λ h. h)
  In-insert_sorted e x (y ∷ ys) = elim (Bool-cases (key_le e y)) [
    | inl first ↦ rw first (λ h. h, λ h. h)
    | inr later ↦ rw later (
      elim [
        | inl p ↦ inr (inl p)
        | inr m ↦ elim ((In-insert_sorted e x ys).0 m) [ inl p ↦ inl p | inr n ↦ inr (inr n) ]
      ],
      elim [
        | inl p ↦ inr ((In-insert_sorted e x ys).1 (inl p))
        | inr m ↦ elim m [ inl p ↦ inl p | inr n ↦ inr ((In-insert_sorted e x ys).1 (inr n)) ]
      ],
    )
  ]

  pub In-sort_events :
      (x : OutboxEvent P) (es : List (OutboxEvent P)) → In x (sort_events es) ↔ In x es
  unfolding sort_events
  In-sort_events x [] = (λ h. h, λ h. h)
  In-sort_events x (e ∷ es) = (
    λ h. elim ((In-insert_sorted e x (sort_events es)).0 h) [
      | inl p ↦ inl p
      | inr m ↦ inr ((In-sort_events x es).0 m)
    ],
    λ h.
        (In-insert_sorted e x (sort_events es)).1
          (elim h [ inl p ↦ inl p | inr m ↦ inr ((In-sort_events x es).1 m) ]),
  )
