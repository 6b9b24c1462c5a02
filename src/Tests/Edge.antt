-- ===== src/Tests/Edge.antt =====
-- Tests of apps/services/edge-api/src/order-reference.ts.
use mathlib.Core.List.{reverse}
use customer_service_os_lite.Common.{
  ◌≡◌, ◌↔◌, refl, false, none, some, List, [], ◌∷◌, String, codes,
}
use customer_service_os_lite.Common.Lists.{All}
use customer_service_os_lite.Edge.OrderReference.{
  OrderReferenceResolution, candidates_in, resolve_from_text, resolve_from_messages,
}
use customer_service_os_lite.Edge.OrderReference.Laws.{
  IsLatest, HasReferenceLength, resolve_from_messages_iff, candidates_in-HasReferenceLength,
}

abbrev said : List String
said = "my order is ORD-0001" ∷ "no, it is ord-0042x, thanks" ∷ "hello?" ∷ []

finds :
    resolve_from_text "no, it is ord-0042x, thanks"
    ≡ OrderReferenceResolution.unique (codes "ORD-0042X")
unfolding resolve_from_text candidates_in
finds = refl

torn : resolve_from_text "ORD-0001 or ORD-0002" ≡ OrderReferenceResolution.ambiguous
unfolding resolve_from_text candidates_in
torn = refl

resolves : resolve_from_messages said none ≡ some (codes "ORD-0042X")
unfolding resolve_from_messages resolve_from_text candidates_in
resolves = refl

resolve_from_messages_iff_example :
    (resolve_from_messages said none ≡ some (codes "ORD-0042X"))
    ↔ IsLatest (reverse said) (codes "ORD-0042X")
resolve_from_messages_iff_example = resolve_from_messages_iff said (codes "ORD-0042X")

candidates_in-HasReferenceLength_example :
    All HasReferenceLength (candidates_in 0 false (codes "ORD-0001 or ORD-0002"))
candidates_in-HasReferenceLength_example = candidates_in-HasReferenceLength "ORD-0001 or ORD-0002"
