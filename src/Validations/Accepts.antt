-- ===== src/Validations/Accepts.antt =====
-- Which orders and returns the validations of src/utils/validations.ts accept.
use miguel_n_ai_trackflow_pr.Common.{
  All, Numbers, Text, [], includes, none, some, text_eq, true, ◌↔◌, ◌∷◌, ◌≡◌,
}
use miguel_n_ai_trackflow_pr.Models.{Order, Return}
use miguel_n_ai_trackflow_pr.Validations.Rules.{
  in_range, is_non_empty_string, valid_order_status, valid_product_condition, valid_return_status,
}
use miguel_n_ai_trackflow_pr.Validations.Records.{
  field_value, order_fields, order_required, return_fields, return_required, validate_order,
  validate_return,
}
use miguel_n_ai_trackflow_pr.Validations.Laws.{
  AreOrdered, IsGoodItem, IsPresent, combine_results_iff, validate_date_coherence_iff,
  validate_enum_field_iff, validate_min_number_iff, validate_positive_number_iff,
  validate_product_items_iff, validate_required_fields_iff,
}

abbrev pub IsFilled : Text → Type 0
IsFilled value = is_non_empty_string value ≡ true

module _ {N : Type 0} (n : Numbers N) where
  open n use {of_ℕ, epsilon}

  -- At least `low`, and finite.
  abbrev pub IsAtLeast : N → N → Type 0
  IsAtLeast low value = in_range n value (some low) none ≡ true

  pub record AcceptsOrder (o : Order N) : Type 0 where
    pub filled : All IsFilled (
        o.order_id ∷ o.package_size ∷ o.destination ∷ o.carrier_id ∷ o.warehouse_id ∷ o.client
        ∷ o.status ∷ [])
    pub dates : AreOrdered n o.placed_at o.expected_delivery
    pub quantity : IsAtLeast (of_ℕ 1) o.package_quantity
    pub weight : IsAtLeast epsilon o.weight
    pub status_known : includes valid_order_status o.status ≡ true
    pub has_products : ¬ o.products ≡ []
    pub good_products : All (IsGoodItem n) o.products

  order_required_iff :
      (o : Order N)
      → All (λ name. IsPresent (field_value (order_fields n o) name)) order_required
        ↔ All IsFilled (
            o.order_id ∷ o.package_size ∷ o.destination ∷ o.carrier_id ∷ o.warehouse_id ∷ o.client
            ∷ o.status ∷ [])
  unfolding field_value text_eq
  order_required_iff o = (
    λ (a, (b, (c, (d, (e, (f, (_, (_, (_, (s, _)))))))))). (a, (b, (c, (d, (e, (f, (s, tt))))))),
    λ (a, (b, (c, (d, (e, (f, (s, _))))))). (a, (b, (c, (d, (e, (f, (tt, (tt, (tt, (s, tt)))))))))),
  )

  -- An order is valid exactly when its seven text fields have a character that is not blank, its
  -- dates are valid and in order, its package quantity is finite and at least 1, its weight finite
  -- and at least `Number.EPSILON`, its status one of the four, and it has a product, and each
  -- product has a name and a finite quantity of at least 1.
  pub validate_order_iff : (o : Order N) → ((validate_order n o).is_valid ≡ true) ↔ AcceptsOrder o
  unfolding validate_order
  validate_order_iff o = (
    λ h.
        let (required, (dates, (quantity, (weight, (status, (items, _)))))) =
          (combine_results_iff _).0 h in
        let (some_items, good_items) = (validate_product_items_iff n o.products).0 items in
        record {
          filled =
              (order_required_iff o).0 ((validate_required_fields_iff _ order_required).0 required);
          dates = (validate_date_coherence_iff n _ _ o.placed_at o.expected_delivery).0 dates;
          quantity = (validate_min_number_iff n _ o.package_quantity (of_ℕ 1)).0 quantity;
          weight = (validate_positive_number_iff n _ o.weight).0 weight;
          status_known = (validate_enum_field_iff _ o.status valid_order_status).0 status;
          has_products = some_items;
          good_products = good_items;
        },
    λ h. (combine_results_iff _).1 (
      (validate_required_fields_iff _ order_required).1 ((order_required_iff o).1 h.filled),
      (
        (validate_date_coherence_iff n _ _ o.placed_at o.expected_delivery).1 h.dates,
        (
          (validate_min_number_iff n _ o.package_quantity (of_ℕ 1)).1 h.quantity,
          (
            (validate_positive_number_iff n _ o.weight).1 h.weight,
            (
              (validate_enum_field_iff _ o.status valid_order_status).1 h.status_known,
              ((validate_product_items_iff n o.products).1 (h.has_products, h.good_products), tt),
            ),
          ),
        ),
      ),
    ),
  )

  pub record AcceptsReturn (o : Return N) : Type 0 where
    pub filled : All IsFilled (
        o.order_id ∷ o.return_id ∷ o.returning_reason ∷ o.package_size ∷ o.carrier_id
        ∷ o.warehouse_id ∷ o.client ∷ o.status ∷ o.product_condition ∷ [])
    pub dates : AreOrdered n o.requested_at o.expected_arrival
    pub quantity : IsAtLeast (of_ℕ 1) o.package_quantity
    pub weight : IsAtLeast epsilon o.weight
    pub status_known : includes valid_return_status o.status ≡ true
    pub condition_known : includes valid_product_condition o.product_condition ≡ true
    pub has_products : ¬ o.products ≡ []
    pub good_products : All (IsGoodItem n) o.products

  return_required_iff :
      (o : Return N)
      → All (λ name. IsPresent (field_value (return_fields n o) name)) return_required
        ↔ All IsFilled (
            o.order_id ∷ o.return_id ∷ o.returning_reason ∷ o.package_size ∷ o.carrier_id
            ∷ o.warehouse_id ∷ o.client ∷ o.status ∷ o.product_condition ∷ [])
  unfolding field_value text_eq
  return_required_iff o = (
    λ (a, (b, (c, (_, (_, (d, (e, (f, (g, (s, (p, (_, _)))))))))))).
        (a, (b, (c, (d, (e, (f, (g, (s, (p, tt))))))))),
    λ (a, (b, (c, (d, (e, (f, (g, (s, (p, _))))))))).
        (a, (b, (c, (tt, (tt, (d, (e, (f, (g, (s, (p, (tt, tt)))))))))))),
  )

  -- A return is valid exactly when its nine text fields have a character that is not blank, its
  -- dates are valid and in order, its package quantity is finite and at least 1, its weight finite
  -- and at least `Number.EPSILON`, its status one of the six and its product condition one of the
  -- four, and it has a product, and each product has a name and a finite quantity of at least 1.
  pub validate_return_iff :
      (o : Return N) → ((validate_return n o).is_valid ≡ true) ↔ AcceptsReturn o
  unfolding validate_return
  validate_return_iff o = (
    λ h.
        let (required, (dates, (quantity, (weight, (status, (condition, (items, _))))))) =
          (combine_results_iff _).0 h in
        let (some_items, good_items) = (validate_product_items_iff n o.products).0 items in
        record {
          filled =
              (return_required_iff o).0
                ((validate_required_fields_iff _ return_required).0 required);
          dates = (validate_date_coherence_iff n _ _ o.requested_at o.expected_arrival).0 dates;
          quantity = (validate_min_number_iff n _ o.package_quantity (of_ℕ 1)).0 quantity;
          weight = (validate_positive_number_iff n _ o.weight).0 weight;
          status_known = (validate_enum_field_iff _ o.status valid_return_status).0 status;
          condition_known =
              (validate_enum_field_iff _ o.product_condition valid_product_condition).0 condition;
          has_products = some_items;
          good_products = good_items;
        },
    λ h. (combine_results_iff _).1 (
      (validate_required_fields_iff _ return_required).1 ((return_required_iff o).1 h.filled),
      (
        (validate_date_coherence_iff n _ _ o.requested_at o.expected_arrival).1 h.dates,
        (
          (validate_min_number_iff n _ o.package_quantity (of_ℕ 1)).1 h.quantity,
          (
            (validate_positive_number_iff n _ o.weight).1 h.weight,
            (
              (validate_enum_field_iff _ o.status valid_return_status).1 h.status_known,
              (
                (validate_enum_field_iff _ o.product_condition valid_product_condition).1
                    h.condition_known,
                ((validate_product_items_iff n o.products).1 (h.has_products, h.good_products), tt),
              ),
            ),
          ),
        ),
      ),
    ),
  )
