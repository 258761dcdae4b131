-- ===== src/Events/Delivery/Examples.antt =====
-- The registry of subscriptions through some calls, and the theorems about it at concrete registries.
use fastapi_viewsets.Prelude.{
  ℕ, ◌≡◌, refl, Text, text, some, Bool, true, false, [], lookup_in, inner, insert_in, nat_beq,
  nat_eq, list_eq, lookup, insert, arith, pair_eq,
}
use fastapi_viewsets.Events.Delivery.{
  Subscription, Registry, subscribe, drop_subscriptions, drop_peers, drop_held, drop_one,
  reauthorized, new_subscription, store_subscription, subscribe_new, install_close,
}
use fastapi_viewsets.Events.Delivery.Consistent.{IsConsistent}
use fastapi_viewsets.Events.Delivery.Calls.{subscribe-IsConsistent, IsIdentity}
use fastapi_viewsets.Events.Delivery.Drops.{held}
use fastapi_viewsets.Prelude.{◌∷◌, ◌⊎◌}
use fastapi_viewsets.Events.Delivery.{store_topic_of}
use fastapi_viewsets.Events.Delivery.Push.{
  raised, other_answer, returned, sent, Frame, frame_of, passes_filters, needs_reauthorization,
  push, push_reaches,
}

abbrev empty : Registry ℕ
empty = record { by_topic = []; by_peer = []; close_installed = []; next_ident = 0 }

empty-IsConsistent : IsConsistent empty
unfolding lookup_in inner lookup
empty-IsConsistent = record {
  listed = λ st k t. refl;
  named = λ k t s h. ground arith;
  owned = λ k t s h. ground arith;
}

abbrev items : Text
items = text "/items"

-- Socket 5 subscribed to a scoped topic at time 100.
abbrev one : Registry ℕ
one = (subscribe 2 true 5 0 items (some (text "@t:1")) (some (text "t")) true 100 empty).0

abbrev first : Subscription ℕ
first = new_subscription 5 0 items (some (text "@t:1")) (some (text "t")) true 100 empty

one-IsConsistent : IsConsistent one
one-IsConsistent =
    subscribe-IsConsistent 2 true 5 0 items (some (text "@t:1")) (some (text "t")) true 100 empty
      empty-IsConsistent

first_held : lookup_in 5 items one.by_peer ≡ some first
unfolding lookup_in inner lookup subscribe subscribe_new store_subscription install_close insert_in
    insert
first_held = refl

first-IsIdentity : IsIdentity first one
unfolding lookup_in inner lookup subscribe subscribe_new store_subscription install_close insert_in
    insert
first-IsIdentity s h same = ground arith

abbrev of_other : Subscription ℕ → Bool
of_other s = nat_beq s.peer 6

other_kept : held (drop_subscriptions of_other one).0 5 items ≡ some first
unfolding lookup_in inner lookup subscribe subscribe_new store_subscription install_close insert_in
    insert drop_subscriptions drop_peers drop_held drop_one
other_kept = refl

abbrev out : Frame ℕ
out = frame_of (text "changed") 1 9 8 77 first

-- the authorization of time 100 is due at 190, and a filter that raises lets the event pass
pushed :
    (push
      (some 60)
      190
      195
      (returned (text "@t:1"))
      (raised ∷ other_answer ∷ [])
      sent
      (text "changed")
      1
      9
      8
      77
      first
      one).1
    ≡ some out
unfolding push reauthorized store_topic_of passes_filters needs_reauthorization
pushed = refl

push_reaches_example :
    (out ≡ frame_of (text "changed") 1 9 8 77 first)
    × ((passes_filters (raised ∷ other_answer ∷ []) ≡ true)
        × ((needs_reauthorization (some 60) 190 first ≡ false)
            ⊎ (returned (text "@t:1") ≡ returned (store_topic_of first))))
push_reaches_example =
    push_reaches (some 60) 190 195 (returned (text "@t:1")) (raised ∷ other_answer ∷ []) sent
      (text "changed") 1 9 8 77 out first one pushed

abbrev seven : ℕ
seven = 7
