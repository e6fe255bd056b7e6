-- ===== src/Tests/Stream.antt =====
-- A hub with two clients, of which one is about to be closed.
use fin_guard.Prelude.{some, [], ◌∷◌, ◌≡◌, refl, false, any}
use fin_guard.Stream.{Hub, new_hub, register, remove, publish, broadcast, subscribed_to}
use fin_guard.Stream.Delivery.{publish_delivers}
use fin_guard.Stream.Safety.{
  Reachable, starts, steps, registers, removes, IsSafe, Reachable-IsSafe, Reachable-publish,
}

abbrev one : Hub
unfolding register
one = register new_hub

abbrev two : Hub
unfolding register
two = register one

abbrev left : Hub
unfolding remove register
left = remove 0 two

left-Reachable : Reachable left
unfolding register one two remove left
left-Reachable =
    steps two left (steps one two (steps new_hub one starts (registers new_hub)) (registers one))
      (removes two 0)

Reachable-IsSafe_example : IsSafe left
Reachable-IsSafe_example = Reachable-IsSafe left left-Reachable

Reachable-publish_example :
    ((h' : Hub) × (publish "system" (some "hello") left ≡ some h'))
    × ((h' : Hub) × (broadcast (some "hello") left ≡ some h'))
Reachable-publish_example = Reachable-publish left "system" (some "hello") left-Reachable

publish_delivers_example :
    (h' : Hub) × (publish "system" (some "hello") two ≡ some h')
    × (h'.clients ≡ two.clients)
    × (h'.cell 1 ≡ record { topics = []; send = "hello" ∷ []; closed = false; cancelled = false })
unfolding any subscribed_to two
publish_delivers_example =
    publish_delivers "system" "hello" two 1 (refl, (refl, tt)) (refl, (refl, tt))
