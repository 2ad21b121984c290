-- ===== src/Routes/Templates.antt =====
-- routeTemplate and sectionForPath of uis/backoffice/lib/telemetry-routes.ts.
use miguel_n_ai_trackflow_pr.Common.{
  Bool, List, Option, Text, [], all, codes, false, if◌then◌else◌, is_empty, join, leb, length,
  lookup, ltb, map, starts_with, suc, take, zero, ℕ, ◌&&◌, ◌++◌, ◌==◌, ◌||◌, ◌∷◌,
}
use miguel_n_ai_trackflow_pr.Session.Paths.{without_end_slashes}

-- A question mark or a number sign.
abbrev pub ends_path : ℕ → Bool
ends_path c = c == 63 || c == 35

-- `path.split(/[?#]/, 1)[0]`
unfoldable pub before_query : Text → Text
before_query [] = []
before_query (c ∷ s) = if ends_path c then [] else c ∷ before_query s

abbrev pub or_slash : Text → Text
or_slash [] = codes "/"
or_slash (c ∷ s) = c ∷ s

abbrev pub put_first : ℕ → List Text → List Text
put_first c [] = (c ∷ []) ∷ []
put_first c (t ∷ ts) = (c ∷ t) ∷ ts

-- `text.split("/")`
unfoldable pub segments : Text → List Text
segments [] = [] ∷ []
segments (c ∷ s) = let rest = segments s in if c == 47 then [] ∷ rest else put_first c rest

abbrev pub is_digit : ℕ → Bool
is_digit c = leb 48 c && leb c 57

-- NUMERIC_SEGMENT
abbrev pub is_numeric : Text → Bool
is_numeric [] = false
is_numeric (c ∷ s) = all is_digit (c ∷ s)

-- `[0-9a-f]` without regard to case
abbrev pub is_hex_char : ℕ → Bool
is_hex_char c = is_digit c || leb 97 c && leb c 102 || leb 65 c && leb c 70

-- `count` hexadecimal digits and then a hyphen or, after the last group, the end.
unfoldable pub has_groups : List ℕ → Text → Bool
has_groups [] s = false
has_groups (zero ∷ []) s = is_empty s
has_groups (zero ∷ count ∷ counts) [] = false
has_groups (zero ∷ count ∷ counts) (c ∷ s) = c == 45 && has_groups (count ∷ counts) s
has_groups (suc n ∷ counts) [] = false
has_groups (suc n ∷ counts) (c ∷ s) = is_hex_char c && has_groups (n ∷ counts) s

-- UUID_SEGMENT
unfoldable pub is_uuid : Text → Bool
is_uuid s = has_groups (8 ∷ 4 ∷ 4 ∷ 4 ∷ 12 ∷ []) s

abbrev pub template_segment : Text → Text
template_segment segment = if is_uuid segment || is_numeric segment then codes "{id}" else segment

abbrev pub with_slash : Text → Text
with_slash t = if starts_with t (codes "/") then t else codes "/" ++ t

unfoldable pub route_template : Text → Text
route_template path =
    let pathname = or_slash (before_query path) in
    let trimmed = if ltb 1 (length pathname) then without_end_slashes pathname else pathname in
    take 200 (with_slash (join (codes "/") (map template_segment (segments trimmed))))

abbrev pub section_by_template : List (Text × Text)
section_by_template =
    (codes "/", codes "dashboard_home")
    ∷ (codes "/login", codes "login")
    ∷ (codes "/register", codes "register")
    ∷ (codes "/forgot-password", codes "forgot_password")
    ∷ (codes "/reset-password", codes "reset_password")
    ∷ (codes "/account/profile", codes "profile")
    ∷ (codes "/account/change-password", codes "account_change_password")
    ∷ (codes "/incidents", codes "incidents_list")
    ∷ (codes "/incidents/new", codes "incident_new")
    ∷ (codes "/incidents/{id}", codes "incident_detail")
    ∷ (codes "/suppliers", codes "suppliers_list")
    ∷ (codes "/suppliers/{id}", codes "supplier_detail")
    ∷ (codes "/backoffice/inventory/products", codes "inventory_products")
    ∷ (codes "/backoffice/inventory/orders", codes "inventory_orders")
    ∷ (codes "/backoffice/inventory/orders/inbound", codes "inventory_inbound_order")
    ∷ (codes "/backoffice/inventory/orders/outbound", codes "inventory_outbound_order")
    ∷ []

-- A template starts with a slash, so it is no key that the table inherits.
unfoldable pub section_for_path : Text → Option Text
section_for_path path = lookup section_by_template (route_template path)
