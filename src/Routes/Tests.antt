-- ===== src/Routes/Tests.antt =====
-- Runs of the vocabulary of the telemetry, and the theorems at them.
use miguel_n_ai_trackflow_pr.Routes.Templates.{
  before_query, has_groups, is_uuid, route_template, section_for_path, segments,
}
use miguel_n_ai_trackflow_pr.Routes.Hidden.{is_hidden}
use miguel_n_ai_trackflow_pr.Routes.Shapes.{is_clean, route_template_lem}
use miguel_n_ai_trackflow_pr.Session.Paths.{without_end_slashes}
use miguel_n_ai_trackflow_pr.Common.{
  all, codes, includes, join, leb, length, lookup, none, refl, some, starts_with, text_eq, true,
  ◌++◌, ◌||◌, ◌≡◌, ◌≤◌,
}
use miguel_n_ai_trackflow_pr.Routes.Classes.{
  api_error_class, http_method, status_class, viewport_class,
}
use miguel_n_ai_trackflow_pr.Routes.Fingerprint.{
  error_fingerprint, error_fingerprint_lem, hash_loop, is_hex, read_hex, to_hex,
}

classes_run :
    (viewport_class 640 ≡ codes "tablet")
    × (status_class 204 ≡ some (codes "2xx"))
    × (api_error_class 400 (codes "/api/incidents/3") ≡ some (codes "validation"))
    × (api_error_class 700 (codes "/api/suppliers") ≡ some (codes "domain_rule"))
unfolding viewport_class status_class api_error_class starts_with
classes_run = (refl, refl, refl, refl)

method_run : http_method (λ t. t) none ≡ some (codes "GET")
unfolding http_method includes text_eq
method_run = refl

error_fingerprint_lem_example :
    (length (error_fingerprint (codes "auth") (codes "/")) ≡ 12)
    × (all is_hex (error_fingerprint (codes "auth") (codes "/")) ≡ true)
    × (read_hex 0
          (to_hex 8 (hash_loop 0x811c9dc5 0x1b873593 (codes "auth" ++ codes "|" ++ codes "/")).0)
        ≡ (hash_loop 0x811c9dc5 0x1b873593 (codes "auth" ++ codes "|" ++ codes "/")).0)
    × (read_hex 0
          (to_hex 8 (hash_loop 0x811c9dc5 0x1b873593 (codes "auth" ++ codes "|" ++ codes "/")).1)
        ≡ (hash_loop 0x811c9dc5 0x1b873593 (codes "auth" ++ codes "|" ++ codes "/")).1)
error_fingerprint_lem_example = error_fingerprint_lem (codes "auth") (codes "/")

templates_run :
    (route_template (codes "/suppliers/12?x=1") ≡ codes "/suppliers/{id}")
    × (route_template (codes "/incidents//") ≡ codes "/incidents")
    × (route_template (codes "//") ≡ codes "/")
    × (section_for_path (codes "/suppliers/12?x=1") ≡ some (codes "supplier_detail"))
    × (section_for_path (codes "/nowhere") ≡ none)
unfolding route_template section_for_path before_query segments is_uuid has_groups join
    without_end_slashes starts_with lookup text_eq
templates_run = (refl, refl, refl, refl, refl)

uuid_run : is_uuid (codes "0A1b2c3d-0000-4000-8000-00000000000f") ≡ true
unfolding is_uuid has_groups
uuid_run = refl

route_template_lem_example :
    let template = route_template (codes "/suppliers/12" ++ codes "?x=1") in
    (starts_with template (codes "/") ≡ true)
    × (length template ≤ 200)
    × (is_clean template ≡ true)
    × ((leb 200 (length template) || all is_hidden (segments template)) ≡ true)
    × (template ≡ route_template (codes "/suppliers/12"))
route_template_lem_example = route_template_lem (codes "/suppliers/12") (codes "?x=1") refl refl
