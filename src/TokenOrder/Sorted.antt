-- ===== src/TokenOrder/Sorted.antt =====
-- utils/fixtures/uniswapFixture.ts: `getTokenOrder` sorts.
use set_protocol_v.Base.{◌≡◌, ◌≢◌, refl, true, inl, inr, Bool-cases}
use set_protocol_v.Js.{str_lt, to_lower_case}
use set_protocol_v.Js.Order.{str_lt_asymm, str_lt_total}
use set_protocol_v.Contracts.{Address}
use set_protocol_v.TokenOrder.{is_ascending_token_order, get_token_order}

-- For two addresses that differ in lower case, `getTokenOrder` returns them in the order that
-- `_isAscendingTokenOrder` accepts, whichever of them is given first.
pub get_token_order_sorted :
    (a b : Address)
    → to_lower_case a ≢ to_lower_case b
    → (is_ascending_token_order (get_token_order a b).0 (get_token_order a b).1 ≡ true)
      × (get_token_order a b ≡ get_token_order b a)
unfolding is_ascending_token_order get_token_order
get_token_order_sorted a b different =
    elim (Bool-cases (str_lt (to_lower_case a) (to_lower_case b))) [
      | inl ab ↦ (rw ab ab, rw (ab, str_lt_asymm _ _ ab) refl)
      | inr ab ↦ elim (Bool-cases (str_lt (to_lower_case b) (to_lower_case a))) [
        | inl ba ↦ (rw ab ba, rw (ab, ba) refl)
        | inr ba ↦ absurd (different (str_lt_total _ _ ab ba))
      ]
    ]
